-- ===== src/DeployForm/Examples.antt =====
-- The launch form at work, and the theorems about it at concrete inputs.
use ota_robot_system.Base.{
  ◌≡◌, ◌≢◌, refl, String, true, false, none, some, List, [], ◌∷◌, includes, string_eq, Mem, arith,
  eq_iff,
}
use ota_robot_system.Types.{Device, DeviceStatus, online, offline, missing, FirmwareVersion}
use ota_robot_system.Types.Reply.{resolved}
use ota_robot_system.Planning.{
  custom, derive_eligible_devices, derive_target_devices, derive_factories, add,
}
use ota_robot_system.DeployForm.{
  Form, initial, fetch_settle, default_factory, target_devices, toggle_device_selection,
  select_all_custom, distinct,
}
use ota_robot_system.DeployForm.Launch.{handle_open_risk_modal}
use ota_robot_system.DeployForm.Selection.{
  includes-toggle_device_selection, select_all_custom-clears,
}

abbrev robot : String → String → DeviceStatus → Device
robot id model status = record {
  id = id;
  name = id;
  factory_id = "north";
  hw_model = model;
  current_version = "1.0.0";
  status = status;
  last_seen = none;
  metadata = missing;
  ip_address = none;
  created_at = "2025-01-01T00:00:00Z";
  updated_at = "2025-01-01T00:00:00Z";
}

abbrev release : FirmwareVersion
release = record {
  id = "fw-1";
  version = "1.1.0";
  file_size = 2048;
  storage_key = "fw-1.bin";
  is_active = true;
  uploaded_by = none;
  created_at = "2025-01-01T00:00:00Z";
  sha256_checksum = "ab";
  ecdsa_signature = none;
  release_notes = none;
}

-- The lists are loaded, and the first factory is filled in.
abbrev loaded : List Device → Form
loaded devices =
    default_factory (fetch_settle none none (resolved (some (release ∷ []), some devices)) initial)

abbrev same : List Device
same = robot "r1" "agv-v1" online ∷ robot "r2" "agv-v1" online ∷ []

abbrev mixed : List Device
mixed = robot "r1" "agv-v1" online ∷ robot "r2" "scara-v1" online ∷ []

opens-same : (handle_open_risk_modal (loaded same)).state.is_risk_modal_open ≡ true
unfolding handle_open_risk_modal default_factory fetch_settle derive_target_devices
    derive_eligible_devices distinct add derive_factories
opens-same = refl

refuses-mixed : (handle_open_risk_modal (loaded mixed)).state.is_risk_modal_open ≡ false
unfolding handle_open_risk_modal default_factory fetch_settle derive_target_devices
    derive_eligible_devices distinct add derive_factories
refuses-mixed = refl

shut-same : (loaded same).is_risk_modal_open ≡ false
unfolding default_factory fetch_settle derive_factories
shut-same = refl

includes-toggle_device_selection_example :
    includes (toggle_device_selection "r1" initial).selected_device_ids "r1" ≡ true
includes-toggle_device_selection_example = includes-toggle_device_selection "r1" "r1" initial

-- The offline robot `r9` is chosen, and one robot is online.
abbrev stale : Form
stale = record initial {
  devices = robot "r1" "agv-v1" online ∷ robot "r9" "agv-v1" offline ∷ [];
  target_scope = custom;
  selected_device_ids = "r9" ∷ [];
}

select_all_custom-clears_example :
    ((select_all_custom stale).selected_device_ids ≡ [])
    × ((d : Device) → ¬ Mem d (target_devices (select_all_custom stale)))
unfolding derive_eligible_devices
select_all_custom-clears_example = select_all_custom-clears stale refl refl

wanted-ne : ◌≢◌ {A = String} "r1" ""
wanted-ne = ground (arith, eq_iff "r1" "")
