-- ===== src/ControlPlane/Manager/Handlers.antt =====
-- Each handler of the rollout manager leaves tables that follow those it met.
use ota_robot_system.Base.{
  ℕ, ◌+◌, refl, String, Bool, true, false, ◌&&◌, ◌||◌, Option, none, some, List, [], ◌∷◌, ◌==◌,
  string_eq, nat_eq, if◌then◌else◌, inl, inr, leb, ltb,
}
use ota_robot_system.Types.{FirmwareVersion, Deployment, completed, rolled_back}
use ota_robot_system.ControlPlane.Store.{
  Store, UnitRow, rollback, publish_command, get_deployment, get_firmware_version, is_running,
  update_deployment_status, update_deployment_phase, increment_deployment_success,
  increment_deployment_failure, get_active_deployment_device_by_device,
  update_deployment_device_status, list_deployment_devices, update_device_version,
}
use ota_robot_system.ControlPlane.Manager.{
  Handled, is_over, is_rolled_back, is_completed, is_canary, set_version, complete, succeed,
  count_success, progress_of, handle_device_progress, previous_version, revert, roll_back,
  execute_rollback, is_breached, judge, error_of, handle_device_error, settle, is_settled,
  reconciled, reconcile,
}
use ota_robot_system.ControlPlane.Manager.Follows.{
  Follows, Follows-refl, Follows-trans, update_deployment_status-Follows,
  update_deployment_phase-Follows, increment_deployment_success-Follows,
  increment_deployment_failure-Follows, unit-Follows, version-Follows, rollback-Follows,
  either-Follows,
}

-- The same for a handler's answer.
either-handled :
    (b : Bool) {s : Store} (x y : Handled)
    → Follows s x.0
    → Follows s y.0
    → Follows s (if b then x else y).0
either-handled true x y h k = h
either-handled false x y h k = k

set_version-Follows :
    (d : String) (o : Option FirmwareVersion) (s : Store) → Follows s (set_version d o s)
unfolding set_version
set_version-Follows d none s = Follows-refl s
set_version-Follows d (some fw) s = version-Follows d fw.version s

complete-Follows : (dep : Deployment) (s : Store) → Follows s (complete dep s)
unfolding complete
complete-Follows dep s =
    let t = update_deployment_status dep.id completed s in
    let h = update_deployment_status-Follows dep.id completed s (inl refl) in
    either-Follows (is_canary dep.strategy)
      (Follows-trans s t (update_deployment_phase dep.id 3 100 t) h
        (update_deployment_phase-Follows dep.id 3 100 t))
      h

succeed-Follows : (d : String) (dep : Deployment) (s : Store) → Follows s (succeed d dep s)
unfolding succeed
succeed-Follows d dep s =
    let u = increment_deployment_success dep.id s in
    let fw = get_firmware_version dep.firmware_version_id s in
    let t = set_version d fw u in
    let h : Follows s t =
      Follows-trans s u t (increment_deployment_success-Follows dep.id s)
        (set_version-Follows d fw u) in
    either-Follows (leb dep.total_devices (dep.success_count + 1 + dep.failure_count))
      (Follows-trans s t (complete dep t) h (complete-Follows dep t)) h

count_success-Follows :
    (d : String) (o : Option Deployment) (s : Store) → Follows s (count_success d o s).0
unfolding count_success
count_success-Follows d none s = Follows-refl s
count_success-Follows d (some dep) s =
    either-handled (is_over dep.status) _ _ (Follows-refl s) (succeed-Follows d dep s)

progress_of-Follows :
    (o : Option UnitRow) (d st : String) (n : ℕ) (s : Store) → Follows s (progress_of o d st n s).0
unfolding progress_of
progress_of-Follows none d st n s = Follows-refl s
progress_of-Follows (some a) d st n s =
    let t = update_deployment_device_status a.deployment_id d st n none s in
    let h = unit-Follows a.deployment_id d st n none s in
    either-handled (st == "success" && n == 100) _ _
      (Follows-trans s t (count_success d (get_deployment a.deployment_id t) t).0 h
        (count_success-Follows d (get_deployment a.deployment_id t) t))
      h

pub handle_device_progress-Follows :
    (d st : String) (n : ℕ) (s : Store) → Follows s (handle_device_progress d st n s).0
unfolding handle_device_progress
handle_device_progress-Follows d st n s =
    progress_of-Follows (get_active_deployment_device_by_device d s) d st n s

revert-Follows : (reason : String) (us : List UnitRow) (s : Store) → Follows s (revert reason us s)
unfolding revert
revert-Follows reason [] s = Follows-refl s
revert-Follows reason (u ∷ us) s =
    let v = previous_version u.previous_version in
    let p = publish_command u.device_id (rollback v reason) s in
    let t = update_device_version u.device_id v p in
    Follows-trans s p (revert reason us t) (rollback-Follows u.device_id v reason s) (
      Follows-trans p t (revert reason us t) (version-Follows u.device_id v p)
        (revert-Follows reason us t))

roll_back-Follows :
    (o : Option Deployment) (reason : String) (s : Store) → Follows s (roll_back o reason s).0
unfolding roll_back
roll_back-Follows none reason s = Follows-refl s
roll_back-Follows (some dep) reason s =
    let t = update_deployment_status dep.id rolled_back s in
    either-handled (is_rolled_back dep.status) _ _ (Follows-refl s) (
      Follows-trans s t (revert reason (list_deployment_devices dep.id t) t)
        (update_deployment_status-Follows dep.id rolled_back s (inr refl))
        (revert-Follows reason (list_deployment_devices dep.id t) t))

pub execute_rollback-Follows :
    (id reason : String) (s : Store) → Follows s (execute_rollback id reason s).0
unfolding execute_rollback
execute_rollback-Follows id reason s = roll_back-Follows (get_deployment id s) reason s

judge-Follows :
    (reason : String) (o : Option Deployment) (s : Store) → Follows s (judge reason o s).0
unfolding judge
judge-Follows reason none s = Follows-refl s
judge-Follows reason (some dep) s =
    either-handled (is_running dep.status && is_breached dep) _ _
      (execute_rollback-Follows dep.id reason s)
      (either-handled (leb dep.total_devices (dep.success_count + dep.failure_count + 1)) _ _
        (update_deployment_status-Follows dep.id completed s (inl refl)) (Follows-refl s))

error_of-Follows :
    (o : Option UnitRow) (reason d m : String) (s : Store) → Follows s (error_of o reason d m s).0
unfolding error_of
error_of-Follows none reason d m s = Follows-refl s
error_of-Follows (some a) reason d m s =
    let u = update_deployment_device_status a.deployment_id d "failed" a.progress (some m) s in
    let t = increment_deployment_failure a.deployment_id u in
    let r = (judge reason (get_deployment a.deployment_id t) t).0 in
    either-handled (a.status == "success" || a.status == "failed") _ _ (Follows-refl s) (
      Follows-trans s u r (unit-Follows a.deployment_id d "failed" a.progress (some m) s) (
        Follows-trans u t r (increment_deployment_failure-Follows a.deployment_id u)
          (judge-Follows reason (get_deployment a.deployment_id t) t)))

pub handle_device_error-Follows :
    (reason d m : String) (s : Store) → Follows s (handle_device_error reason d m s).0
unfolding handle_device_error
handle_device_error-Follows reason d m s =
    error_of-Follows (get_active_deployment_device_by_device d s) reason d m s

settle-Follows : (dep : Deployment) (s : Store) → Follows s (settle dep s)
unfolding settle
settle-Follows dep s =
    let t = if is_completed dep.status then s else update_deployment_status dep.id completed s in
    let h : Follows s t =
      either-Follows (is_completed dep.status) (Follows-refl s)
        (update_deployment_status-Follows dep.id completed s (inl refl)) in
    either-Follows (is_canary dep.strategy && ltb dep.current_phase 3)
      (Follows-trans s t (update_deployment_phase dep.id 3 100 t) h
        (update_deployment_phase-Follows dep.id 3 100 t))
      h

reconciled-Follows : (o : Option Deployment) (s : Store) → Follows s (reconciled o s).0
unfolding reconciled
reconciled-Follows none s = Follows-refl s
reconciled-Follows (some dep) s =
    either-handled (is_settled dep) _ _ (settle-Follows dep s) (Follows-refl s)

pub reconcile-Follows : (id : String) (s : Store) → Follows s (reconcile id s).0
unfolding reconcile
reconcile-Follows id s = reconciled-Follows (get_deployment id s) s
