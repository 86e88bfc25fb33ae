-- ===== src/ControlPlane/Manager/Examples.antt =====
-- The rollout manager at the tables of a small rollout.
use ota_robot_system.Base.{
  ◌≡◌, refl, String, none, some, List, [], ◌∷◌, ◌++◌, arith, eq_iff, string_eq,
}
use ota_robot_system.Types.{DeploymentStatus, rolled_back}
use ota_robot_system.ControlPlane.Store.{
  rollback, Command, publish_command, with_status, get_deployment, update_deployment_status,
  list_deployment_devices, update_device_version,
}
use ota_robot_system.ControlPlane.Manager.{
  execute_rollback, handle_device_error, handle_device_progress,
}
use ota_robot_system.ControlPlane.Manager.Back.{SentBack}
use ota_robot_system.ControlPlane.Manager.Policy.{Reaches, Judged, handle_device_error-Judged}
use ota_robot_system.ControlPlane.Manager.Decisions.{execute_rollback_lem}
use ota_robot_system.ControlPlane.Manager.Reports.{
  handle_device_error_lem, after_success, handle_device_progress_lem,
}
use ota_robot_system.ControlPlane.Examples.{rollout, unit, tables, active-a}

-- The first error of five robots, with a threshold of two fifths.
handle_device_error-Judged_example :
    (st : DeploymentStatus) × Judged rollout 1 st
    × (get_deployment "dep-1" (handle_device_error "failure rate" "a" "checksum mismatch" tables).0
        ≡ some (record rollout { status = st; failure_count = 1 }))
handle_device_error-Judged_example =
    handle_device_error-Judged "failure rate" "a" "checksum mismatch" (unit "a") rollout tables
      active-a (λ e. ground (arith, eq_iff "pending" "success"))
      (λ e. ground (arith, eq_iff "pending" "failed")) refl

-- One failure of five does not reach two fifths, but the rollout is rolled back.
premature_rollback :
    ¬ Reaches rollout 1
    × (get_deployment "dep-1" (handle_device_error "failure rate" "a" "checksum mismatch" tables).0
        ≡ some (record rollout { status = rolled_back; failure_count = 1 }))
premature_rollback = (
  λ h. omega (arith, h),
  handle_device_error_lem "failure rate" "a" "checksum mismatch" (unit "a") rollout tables active-a
      (λ e. ground (arith, eq_iff "pending" "success"))
      (λ e. ground (arith, eq_iff "pending" "failed")) refl,
)

handle_device_progress_lem_example :
    get_deployment "dep-1" (handle_device_progress "a" "success" 100 tables).0
    ≡ some (after_success rollout)
handle_device_progress_lem_example =
    handle_device_progress_lem "a" (unit "a") rollout tables active-a refl refl

execute_rollback_lem_example :
    let t = (execute_rollback "dep-1" "manual" tables).0 in
    (get_deployment "dep-1" t ≡ some (with_status rolled_back rollout))
    × ((cs : List (String × Command)) × (t.commands ≡ [] ++ cs)
        × SentBack "manual" (list_deployment_devices "dep-1" tables) cs)
    × (execute_rollback "dep-1" "again" t ≡ (t, none))
execute_rollback_lem_example =
    execute_rollback_lem "dep-1" "manual" "again" rollout tables refl (λ e. cc)

-- Two robots of which one has no version from before.
execute_rollback-commands-two :
    (execute_rollback "dep-1" "manual" (record tables {
      units = unit "a" ∷ record (unit "b") { previous_version = none } ∷ [];
    })).0.commands
    ≡ ("a", rollback "0.9.0" "manual") ∷ ("b", rollback "1.0.0" "manual") ∷ []
unfolding execute_rollback update_deployment_status publish_command update_device_version
execute_rollback-commands-two = refl
