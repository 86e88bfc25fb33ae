-- ===== src/ControlPlane/Examples.antt =====
-- Rollouts of a small fleet, and the theorems about the control plane at concrete inputs.
use ota_robot_system.Base.{
  ◌≡◌, refl, String, true, false, none, some, List, [], ◌∷◌, ◌++◌, string_eq,
}
use ota_robot_system.Types.{Device, online, missing, canary, Deployment, running}
use ota_robot_system.ControlPlane.Store.{
  Store, UnitRow, Command, update, publish_command, update_deployment_status,
  update_deployment_phase, get_active_deployment_device_by_device, update_device_version, runs,
}
use ota_robot_system.ControlPlane.Manager.{execute_rollback}
use ota_robot_system.ControlPlane.Manager.Follows.{Follows, updates}
use ota_robot_system.ControlPlane.Canary.{
  p1_end, p2_end, is_last_phase, System, run_canary, finished, Event, goes, fails, rolls_back,
  handled, steps,
}
use ota_robot_system.ControlPlane.Canary.Steps.{ids, handled-Follows}
use ota_robot_system.ControlPlane.Canary.Sent.{steps-run_canary, steps-run_canary-finished}
use ota_robot_system.ControlPlane.Canary.Halt.{in_flight, IsStopped, steps-IsStopped}

abbrev robot : String → Device
robot id = record {
  id = id;
  name = id;
  factory_id = "north";
  hw_model = "agv-v1";
  current_version = "1.0.0";
  status = online;
  last_seen = none;
  metadata = missing;
  ip_address = none;
  created_at = "2025-01-01T00:00:00Z";
  updated_at = "2025-01-01T00:00:00Z";
}

abbrev fleet : List Device
fleet = robot "a" ∷ robot "b" ∷ robot "c" ∷ robot "d" ∷ robot "e" ∷ []

abbrev pub rollout : Deployment
rollout = record {
  id = "dep-1";
  firmware_version_id = "fw-1";
  firmware_version = none;
  strategy = canary;
  status = running;
  canary_percentage = 20;
  current_phase = 0;
  total_devices = 5;
  success_count = 0;
  failure_count = 0;
  rollback_threshold = record { num = 40; den = 100 };
  created_by = "operator";
  created_at = "2025-01-01T00:00:00Z";
  started_at = none;
  completed_at = none;
}

abbrev pub unit : String → UnitRow
unit id = record {
  deployment_id = "dep-1";
  device_id = id;
  status = "pending";
  progress = 0;
  error_message = none;
  previous_version = some "0.9.0";
}

abbrev pub tables : Store
tables = record {
  deployments = rollout ∷ [];
  units = unit "a" ∷ unit "b" ∷ unit "c" ∷ unit "d" ∷ unit "e" ∷ [];
  devices = fleet;
  firmware = [];
  commands = [];
}

abbrev new : Command
new = update "1.1.0" "all" "https://store/fw-1" "ab" "cd"

abbrev begin : System
begin = run_canary "dep-1" fleet new tables

-- The sentinel is sent the update, its window passes, and so on to the end.
abbrev whole : List Event
whole =
    goes false
    ∷ goes false
    ∷ goes false
    ∷ goes false
    ∷ goes false
    ∷ goes true
    ∷ goes false
    ∷ goes false
    ∷ goes false
    ∷ goes false
    ∷ goes false
    ∷ goes false
    ∷ goes true
    ∷ goes false
    ∷ goes false
    ∷ goes false
    ∷ goes false
    ∷ goes false
    ∷ goes false
    ∷ goes false
    ∷ []

-- The operator asks for a rollback while the second phase is sent.
abbrev stopped : List Event
stopped =
    goes false
    ∷ goes false
    ∷ goes false
    ∷ goes false
    ∷ goes true
    ∷ goes false
    ∷ goes false
    ∷ goes false
    ∷ rolls_back "dep-1" "manual_operator_request"
    ∷ []

steps-whole :
    ((steps begin whole).stage ≡ finished)
    × (updates (steps begin whole).store.commands ≡ "a" ∷ "b" ∷ "c" ∷ "d" ∷ "e" ∷ [])
unfolding steps p1_end p2_end is_last_phase update_deployment_phase publish_command runs
steps-whole = (refl, refl)

steps-stopped :
    (updates (steps begin stopped).store.commands ≡ "a" ∷ "b" ∷ [])
    × (ids (in_flight (steps begin stopped).stage) ≡ "c" ∷ [])
unfolding steps p1_end p2_end is_last_phase update_deployment_phase publish_command runs
    execute_rollback update_deployment_status update_device_version
steps-stopped = (refl, refl)

steps-run_canary_example :
    (left : List String) × (updates (steps begin stopped).store.commands ++ left ≡ ids fleet)
steps-run_canary_example = steps-run_canary "dep-1" fleet new tables stopped tt

steps-run_canary-finished_example : updates (steps begin whole).store.commands ≡ ids fleet
steps-run_canary-finished_example =
    steps-run_canary-finished "dep-1" fleet new tables whole tt (steps-whole.0)

halted_rollout : IsStopped (steps begin stopped)
unfolding steps p1_end p2_end is_last_phase update_deployment_phase publish_command runs
    execute_rollback update_deployment_status update_device_version
halted_rollout = refl

steps-IsStopped_example :
    IsStopped (steps (steps begin stopped) whole)
    × (updates (steps (steps begin stopped) whole).store.commands
          ++ ids (in_flight (steps (steps begin stopped) whole).stage)
        ≡ updates (steps begin stopped).store.commands
          ++ ids (in_flight (steps begin stopped).stage))
unfolding steps p1_end p2_end is_last_phase update_deployment_phase publish_command runs
steps-IsStopped_example = steps-IsStopped (steps begin stopped) whole tt halted_rollout

-- Errors are reported while the sentinel is observed.
abbrev early : List Event
early =
    goes false
    ∷ goes false
    ∷ goes false
    ∷ goes false
    ∷ fails "failure rate" "a" "checksum mismatch"
    ∷ goes false
    ∷ goes false
    ∷ []

handled-Follows_example :
    Follows tables (handled (fails "failure rate" "a" "checksum mismatch") tables)
handled-Follows_example = handled-Follows (fails "failure rate" "a" "checksum mismatch") tables

pub active-a : get_active_deployment_device_by_device "a" tables ≡ some (unit "a")
unfolding get_active_deployment_device_by_device
active-a = refl
