-- ===== src/DeployForm.antt =====
-- The launch form (frontend/src/app/deploy/page.tsx): its state, its effects and its handlers.
pub mod Launch
pub mod Selection
pub mod View
pub mod Examples
use ota_robot_system.Base.{
  ℕ, String, Bool, true, false, not, ◌&&◌, ◌||◌, Option, none, some, List, [], ◌∷◌, ◌++◌, map,
  filter, any, includes, length, ltb, truthy, ◌==◌, string_eq, nat_eq, if◌then◌else◌, concat, Out,
  only, Effect, toast, push, ToastType, success, error, warning, default_duration,
}
use ota_robot_system.Types.{Device, FirmwareVersion, Strategy, canary, CreateDeploymentPayload}
use ota_robot_system.Types.Telemetry.{Thrown, get_error_message}
use ota_robot_system.Types.Reply.{Reply, resolved, rejected}
use ota_robot_system.Planning.{
  TargetScope, factory, custom, RolloutDraft, derive_factories, derive_eligible_devices,
  derive_target_devices, prepare_deployment_payload, add,
}

pub record Form : Type 0 where
  pub firmwares : List FirmwareVersion
  pub devices : List Device
  pub selected_fw_id : String
  pub target_scope : TargetScope
  pub selected_factory : String
  pub selected_device_ids : List String
  pub strategy : Strategy
  pub rollback_threshold : ℕ
  pub loading : Bool
  pub is_launching : Bool
  pub is_risk_modal_open : Bool
  pub error_text : Option String

abbrev pub initial : Form
initial = record {
  firmwares = [];
  devices = [];
  selected_fw_id = "";
  target_scope = factory;
  selected_factory = "";
  selected_device_ids = [];
  strategy = canary;
  rollback_threshold = 20;
  loading = true;
  is_launching = false;
  is_risk_modal_open = false;
  error_text = none;
}

-- `res.data || []`.
abbrev pub data_or_empty {ℓ} : {A : Type ℓ} → Option (List A) → List A
data_or_empty none = []
data_or_empty (some xs) = xs

-- The id of `data[0]`, if there is one: otherwise the choice stays.
unfoldable pub first_id : List FirmwareVersion → String → String
first_id [] chosen = chosen
first_id (f ∷ fs) chosen = f.id

unfoldable pub choose_firmware : Option String → List FirmwareVersion → String → String
unfolding first_id
choose_firmware none fs chosen = first_id fs chosen
choose_firmware (some wanted) fs chosen =
    if truthy wanted && any (λ f. f.id == wanted) fs then wanted else first_id fs chosen

unfoldable pub choose_device : Option String → Form → Form
choose_device none s = s
choose_device (some wanted) s =
    if truthy wanted
    then record s { target_scope = custom; selected_device_ids = wanted ∷ [] }
    else s

unfoldable pub load_error : Form → Form
load_error s = record s { error_text = some "Failed to load initial configuration data." }

-- After the lists are stored the code reads `fwRes.data` again, and throws if it is `null`.
unfoldable pub received :
    Option String → Option String → Option (List FirmwareVersion) → Form → Form
unfolding load_error choose_device choose_firmware
received fw device none s = load_error s
received fw device (some fs) s =
    choose_device device (record s { selected_fw_id = choose_firmware fw fs s.selected_fw_id })

-- `fetchData`, when both calls have ended. The address names a firmware and a robot, or not.
unfoldable pub fetch_settle :
    Option String
    → Option String
    → Reply (Option (List FirmwareVersion) × Option (List Device))
    → Form
    → Form
unfolding received load_error
fetch_settle fw device (resolved (fws, devs)) s =
    record (received fw device fws
      (record s { firmwares = data_or_empty fws; devices = data_or_empty devs })) {
        loading = false;
      }
fetch_settle fw device (rejected e) s = record (load_error s) { loading = false }

first_or : List String → String → String
first_or [] s = s
first_or (f ∷ fs) s = f

-- The effect that fills in the factory.
unfoldable pub default_factory : Form → Form
unfolding first_or
default_factory s =
    if truthy s.selected_factory
    then s
    else record s { selected_factory = first_or (derive_factories s.devices) s.selected_factory }

abbrev pub eligible_devices : Form → List Device
eligible_devices s = derive_eligible_devices s.devices

abbrev pub target_devices : Form → List Device
target_devices s =
    derive_target_devices (eligible_devices s) s.target_scope s.selected_factory
      s.selected_device_ids

unfoldable pub toggle_device_selection : String → Form → Form
toggle_device_selection id s = record s {
  selected_device_ids =
      if includes s.selected_device_ids id
      then filter (λ d. not (d == id)) s.selected_device_ids
      else s.selected_device_ids ++ id ∷ [];
}

unfoldable pub select_all_custom : Form → Form
select_all_custom s = record s {
  selected_device_ids =
      if length s.selected_device_ids == length (eligible_devices s)
      then []
      else map (λ d. d.id) (eligible_devices s);
}

-- `new Set(models)`, in the order of insertion.
unfoldable pub distinct : List String → List String → List String
distinct s [] = s
distinct s (x ∷ xs) = distinct (add s x) xs

abbrev pub target_models : Form → List String
target_models s = distinct [] (map (λ d. d.hw_model) (target_devices s))
