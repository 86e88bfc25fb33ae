-- ===== src/ControlPlane/Messages/Examples.antt =====
-- The reports of an update at the tables of a small rollout.
use ota_robot_system.Base.{◌≡◌, refl, some, ◌⊎◌, arith, eq_iff}
use ota_robot_system.Agent.{handle_update}
use ota_robot_system.Agent.Image.{Accepted}
use ota_robot_system.Agent.Examples.{vehicle, parked, release}
use ota_robot_system.ControlPlane.Store.{get_deployment, with_status}
use ota_robot_system.ControlPlane.Manager.Reports.{after_success, after_error, one_failure}
use ota_robot_system.ControlPlane.Messages.{handle_reports}
use ota_robot_system.ControlPlane.Messages.Updates.{handle_reports-handle_update}
use ota_robot_system.ControlPlane.Examples.{rollout, unit, tables, active-a}

handle_reports-handle_update_example :
    let (robot, reports) = handle_update (vehicle 80) release parked in
    let row = get_deployment "dep-1" (handle_reports "failure rate" "a" reports tables) in
    (Accepted (vehicle 80) release
      × (robot.current_version ≡ "1.1.0")
      × (row ≡ some (after_success rollout)))
    ⊎ (¬ Accepted (vehicle 80) release
        × (robot.current_version ≡ "1.0.0")
        × (row ≡ some (with_status (after_error rollout) (one_failure rollout))))
handle_reports-handle_update_example =
    handle_reports-handle_update (vehicle 80) release parked "failure rate" "a" (unit "a") rollout
      tables refl active-a (λ e. ground (arith, e, eq_iff "pending" "success"))
      (λ e. ground (arith, e, eq_iff "pending" "failed")) refl refl
