-- ===== src/ControlPlane/Manager.antt =====
-- The rollout manager (backend/internal/rollout/manager.go): what it does with the reports of robots
-- and the requests of operators. A handler gives the tables it leaves, and its error if it has one.
-- The threshold is a fraction of whole numbers, so that the quotient of doubles compares as the
-- exact one.
pub mod Parts
pub mod Follows
pub mod Handlers
pub mod Rows
pub mod Back
pub mod Decisions
pub mod Reports
pub mod Progress
pub mod Policy
pub mod Examples
use ota_robot_system.Base.{
  ℕ, ◌+◌, ◌*◌, String, Bool, true, false, not, ◌&&◌, ◌||◌, Option, none, some, List, [], ◌∷◌, map,
  ltb, leb, ◌==◌, nat_eq, string_eq, truthy, if◌then◌else◌, concat,
}
use ota_robot_system.Types.{
  Device, FirmwareVersion, Strategy, full, canary, Fraction, Deployment, DeploymentStatus, pending,
  running, completed, failed, rolled_back,
}
use ota_robot_system.ControlPlane.Store.{
  Store, UnitRow, Command, rollback, publish_command, get_deployment, get_firmware_version,
  update_deployment_status, update_deployment_phase, increment_deployment_success,
  increment_deployment_failure, is_running, get_active_deployment_device_by_device,
  update_deployment_device_status, list_deployment_devices, update_device_version,
}

abbrev pub Handled : Type 0
Handled = Store × Option String

-- `dep.Status == "rolled_back" || dep.Status == "failed"`.
abbrev pub is_over : DeploymentStatus → Bool
is_over st = elim st [
  | rolled_back ↦ true
  | failed ↦ true
  | pending ↦ false
  | running ↦ false
  | completed ↦ false
]

abbrev pub is_rolled_back : DeploymentStatus → Bool
is_rolled_back st = elim st [
  | rolled_back ↦ true
  | failed ↦ false
  | pending ↦ false
  | running ↦ false
  | completed ↦ false
]

abbrev pub is_completed : DeploymentStatus → Bool
is_completed st = elim st [
  | completed ↦ true
  | rolled_back ↦ false
  | failed ↦ false
  | pending ↦ false
  | running ↦ false
]

abbrev pub is_canary : Strategy → Bool
is_canary st = elim st [ canary ↦ true | full ↦ false ]

-- The version that runs now is that of the firmware, if this is still there.
pub set_version : String → Option FirmwareVersion → Store → Store
set_version device_id none s = s
set_version device_id (some fw) s = update_device_version device_id fw.version s

complete : Deployment → Store → Store
complete dep s =
    let t = update_deployment_status dep.id completed s in
    if is_canary dep.strategy then update_deployment_phase dep.id 3 100 t else t

-- A success of a rollout as it was read before it is counted.
succeed : String → Deployment → Store → Store
unfolding set_version complete
succeed device_id dep s =
    let t =
      set_version device_id (get_firmware_version dep.firmware_version_id s)
        (increment_deployment_success dep.id s) in
    if leb dep.total_devices (dep.success_count + 1 + dep.failure_count) then complete dep t else t

count_success : String → Option Deployment → Store → Handled
unfolding succeed
count_success device_id none s = (s, some "failed to fetch deployment")
count_success device_id (some dep) s =
    if is_over dep.status then (s, none) else (succeed device_id dep s, none)

progress_of : Option UnitRow → String → String → ℕ → Store → Handled
unfolding count_success
progress_of none device_id status progress s = (s, some "no active deployment found for device")
progress_of (some active) device_id status progress s =
    let t = update_deployment_device_status active.deployment_id device_id status progress none s in
    if status == "success" && progress == 100
    then count_success device_id (get_deployment active.deployment_id t) t
    else (t, none)

-- `HandleDeviceProgress`: the robot, its status and its progress.
unfoldable pub handle_device_progress : String → String → ℕ → Store → Handled
unfolding progress_of
handle_device_progress device_id status progress s =
    progress_of (get_active_deployment_device_by_device device_id s) device_id status progress s

pub previous_version : Option String → String
previous_version none = "1.0.0"
previous_version (some v) = if truthy v then v else "1.0.0"

pub revert : String → List UnitRow → Store → Store
unfolding previous_version
revert reason [] s = s
revert reason (u ∷ us) s =
    let v = previous_version u.previous_version in
    revert reason us
      (update_device_version u.device_id v (publish_command u.device_id (rollback v reason) s))

pub roll_back : Option Deployment → String → Store → Handled
unfolding revert
roll_back none reason s = (s, some "failed to retrieve deployment for rollback")
roll_back (some dep) reason s =
    if is_rolled_back dep.status
    then (s, none)
    else let t = update_deployment_status dep.id rolled_back s in
      (revert reason (list_deployment_devices dep.id t) t, none)

-- `ExecuteRollback`.
unfoldable pub execute_rollback : String → String → Store → Handled
unfolding roll_back
execute_rollback id reason s = roll_back (get_deployment id s) reason s

-- `failureRate >= dep.RollbackThreshold`, with one failure added to those that are counted.
unfoldable pub is_breached : Deployment → Bool
is_breached dep =
    leb (dep.rollback_threshold.num * dep.total_devices)
      ((dep.failure_count + 1) * dep.rollback_threshold.den)

-- The reason is a text with the rate and the threshold.
pub judge : String → Option Deployment → Store → Handled
unfolding is_breached
judge reason none s = (s, some "failed to fetch deployment")
judge reason (some dep) s =
    if is_running dep.status && is_breached dep
    then execute_rollback dep.id reason s
    else if leb dep.total_devices (dep.success_count + dep.failure_count + 1)
    then (update_deployment_status dep.id completed s, none)
    else (s, none)

error_of : Option UnitRow → String → String → String → Store → Handled
unfolding judge
error_of none reason device_id message s = (s, some "no active deployment found for device")
error_of (some active) reason device_id message s =
    if active.status == "success" || active.status == "failed"
    then (s, none)
    else let t = increment_deployment_failure active.deployment_id (
        update_deployment_device_status active.deployment_id device_id "failed" active.progress
          (some message) s) in
      judge reason (get_deployment active.deployment_id t) t

-- `HandleDeviceError`.
unfoldable pub handle_device_error : String → String → String → Store → Handled
unfolding error_of
handle_device_error reason device_id message s =
    error_of (get_active_deployment_device_by_device device_id s) reason device_id message s

settle : Deployment → Store → Store
settle dep s =
    let t = if is_completed dep.status then s else update_deployment_status dep.id completed s in
    if is_canary dep.strategy && ltb dep.current_phase 3
    then update_deployment_phase dep.id 3 100 t
    else t

-- All targets are counted, and the rollout was not stopped.
unfoldable pub is_settled : Deployment → Bool
is_settled dep =
    ltb 0 dep.total_devices
    && leb dep.total_devices (dep.success_count + dep.failure_count)
    && not (is_over dep.status)

reconciled : Option Deployment → Store → Handled
unfolding is_settled settle
reconciled none s = (s, some "no rows in result set")
reconciled (some dep) s = if is_settled dep then (settle dep s, none) else (s, none)

-- `Reconcile`.
unfoldable pub reconcile : String → Store → Handled
unfolding reconciled
reconcile id s = reconciled (get_deployment id s) s
