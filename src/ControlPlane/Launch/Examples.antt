-- ===== src/ControlPlane/Launch/Examples.antt =====
-- Requests for rollouts of two robots, and the theorems about them at concrete inputs.
use ota_robot_system.Base.{
  ◌≡◌, refl, String, true, false, none, some, List, [], ◌∷◌, ◌++◌, length, arith, concat, ◌⊎◌,
}
use ota_robot_system.Types.{
  Device, DeviceStatus, online, offline, missing, FirmwareVersion, canary, running,
}
use ota_robot_system.Planning.{
  all, add, derive_eligible_devices, derive_target_devices, prepare_deployment_payload,
}
use ota_robot_system.DeployForm.{Form, initial, target_devices, distinct}
use ota_robot_system.DeployForm.Launch.{handle_open_risk_modal, launch_payload}
use ota_robot_system.Types.{Fraction, Deployment, running}
use ota_robot_system.ControlPlane.Store.{Command}
use ota_robot_system.ControlPlane.Store.{
  Store, runs, publish_command, update_deployment_phase, update_deployment_status,
}
use ota_robot_system.ControlPlane.Manager.Follows.{updates}
use ota_robot_system.ControlPlane.Canary.{
  p1_end, p2_end, is_last_phase, run_canary, Event, goes, start, steps,
}
use ota_robot_system.ControlPlane.Canary.Steps.{ids}
use ota_robot_system.ControlPlane.Canary.Ends.{Reaches}
use ota_robot_system.ControlPlane.Launch.{
  CreateDeploymentRequest, Services, refusal, created, new_deployment, update_to, enlist,
  create_deployment, received,
}
use ota_robot_system.ControlPlane.Launch.Decides.{Refuses, Accepts, create_deployment-Accepts}
use ota_robot_system.ControlPlane.Launch.Whole.{rollout_of, create_deployment-launch_payload}

abbrev robot : String → DeviceStatus → Device
robot id status = record {
  id = id;
  name = id;
  factory_id = "north";
  hw_model = "agv-v1";
  current_version = "0.9.0";
  status = status;
  last_seen = none;
  metadata = missing;
  ip_address = none;
  created_at = "2025-01-01T00:00:00Z";
  updated_at = "2025-01-01T00:00:00Z";
}

abbrev release : FirmwareVersion
release = record {
  id = "fw-1";
  version = "1.1.0";
  storage_key = "fw-1.bin";
  file_size = 1;
  sha256_checksum = "ab";
  ecdsa_signature = some "cd";
  release_notes = none;
  is_active = true;
  uploaded_by = none;
  created_at = "2025-01-01T00:00:00Z";
}

abbrev fleet : List Device
fleet = robot "a" online ∷ robot "b" offline ∷ robot "c" online ∷ []

abbrev tables : Store
tables = record {
  deployments = [];
  units = [];
  devices = fleet;
  firmware = release ∷ [];
  commands = [];
}

abbrev services : Services
services = record {
  parse_uuid = λ t. some t;
  presigned_get_object = λ key. some (concat "https://store/" key);
  new_id = λ s. "dep-1";
  now = λ s. "2025-01-01T00:00:00Z";
  order = λ ds. ds;
}

abbrev request : CreateDeploymentRequest
request = record {
  firmware_id = "fw-1";
  strategy = "";
  hw_model = "agv-v1";
  device_ids = "c" ∷ "x" ∷ [];
  rollback_threshold = record { num = 0; den = 100 };
}

-- An unknown strategy is refused.
create_deployment-blue_green :
    create_deployment services (record request { strategy = "blue-green" }) tables
    ≡ refusal 400 "strategy must be canary or full" tables
unfolding create_deployment
create_deployment-blue_green = refl

create_deployment-Accepts_example :
    Refuses tables (create_deployment services request tables)
    ⊎ Accepts services request tables (create_deployment services request tables)
create_deployment-Accepts_example = create_deployment-Accepts services request tables (λ d m. m)

-- The form with all online robots chosen.
abbrev form : Form
form = record initial {
  firmwares = release ∷ [];
  devices = fleet;
  selected_fw_id = "fw-1";
  target_scope = all;
  strategy = canary;
  rollback_threshold = 20;
}

form-opens : (handle_open_risk_modal form).state.is_risk_modal_open ≡ true
unfolding handle_open_risk_modal derive_eligible_devices derive_target_devices distinct add
form-opens = refl

-- The goroutine goes from one phase to the other and to its end.
abbrev schedule : List Event
schedule =
    goes false
    ∷ goes false
    ∷ goes false
    ∷ goes false
    ∷ goes true
    ∷ goes false
    ∷ goes false
    ∷ goes false
    ∷ goes false
    ∷ goes false
    ∷ goes false
    ∷ []

abbrev ready : List Device
ready = robot "a" online ∷ robot "c" online ∷ []

targets-form : target_devices form ≡ ready
unfolding derive_eligible_devices derive_target_devices
targets-form = refl

abbrev ending : Store
ending =
    (steps
      (run_canary "dep-1" ready (update_to release "agv-v1" "https://store/fw-1.bin")
        (enlist services release canary (record { num = 20; den = 100 }) ready tables))
      schedule).store

form-Reaches :
    Reaches (rollout_of services form release "https://store/fw-1.bin" tables) schedule ending
unfolding start launch_payload prepare_deployment_payload derive_eligible_devices
    derive_target_devices steps p1_end p2_end is_last_phase publish_command update_deployment_phase
    update_deployment_status runs enlist
form-Reaches = (refl, refl)

create_deployment-launch_payload_example :
    (create_deployment services (received (launch_payload form)) tables
      ≡ created "dep-1"
          (length (target_devices form))
          canary
          (rollout_of services form release "https://store/fw-1.bin" tables))
    × (updates ending.commands ≡ [] ++ ids (target_devices form))
create_deployment-launch_payload_example =
    create_deployment-launch_payload services form "fw-1" "https://store/fw-1.bin" release tables
      ending schedule refl form-opens (omega arith) (omega arith) refl refl refl
      (refl, (refl, (refl, tt))) form-Reaches

-- The first robot has its command.
abbrev soon : List Event
soon = goes false ∷ goes false ∷ goes false ∷ []

abbrev twenty : Fraction
twenty = record { num = 20; den = 100 }

abbrev command : Command
command = update_to release "agv-v1" "https://store/fw-1.bin"

abbrev row : Deployment
row = record (new_deployment services "fw-1" canary 2 twenty tables) {
  status = running;
  current_phase = 1;
  canary_percentage = 20;
}
