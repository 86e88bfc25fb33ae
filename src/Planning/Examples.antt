-- ===== src/Planning/Examples.antt =====
-- A small fleet, and the theorems about planning at concrete inputs.
use ota_robot_system.Base.{
  ◌≡◌, ◌≢◌, ◌↔◌, refl, String, none, some, true, false, List, [], ◌∷◌, length, map, filter, Mem,
  ◌==◌, string_eq,
}
use ota_robot_system.Types.{
  Device, DeviceStatus, online, offline, missing, is_online, FirmwareVersion, canary,
}
use ota_robot_system.Planning.{
  RolloutDraft, factory, add, derive_factories, derive_eligible_devices, derive_target_devices,
  evaluate_rollout_plan, prepare_deployment_payload, sentinels,
}
use ota_robot_system.Planning.Targets.{
  Chosen, mem-derive_target_devices, mem-prepare_deployment_payload,
}
use ota_robot_system.Planning.Counts.{is_valid_iff, length-warnings, has_hardware_mismatch-eq-false}

abbrev robot : String → String → DeviceStatus → Device
robot id site status = record {
  id = id;
  name = id;
  factory_id = site;
  hw_model = "agv-v1";
  current_version = "1.0.0";
  status = status;
  last_seen = none;
  metadata = missing;
  ip_address = none;
  created_at = "2025-01-01T00:00:00Z";
  updated_at = "2025-01-01T00:00:00Z";
}

abbrev fleet : List Device
fleet =
    robot "r1" "north" online
    ∷ robot "r2" "south" online
    ∷ robot "r3" "north" offline
    ∷ robot "r4" "north" online
    ∷ []

abbrev draft : RolloutDraft
draft = record {
  selected_fw_id = "fw-1";
  target_scope = factory;
  selected_factory = "north";
  selected_device_ids = [];
  strategy = canary;
  rollback_threshold = 20;
}

abbrev release : FirmwareVersion
release = record {
  id = "fw-1";
  version = "1.0.0";
  file_size = 2048;
  storage_key = "fw-1.bin";
  is_active = true;
  uploaded_by = none;
  created_at = "2025-01-01T00:00:00Z";
  sha256_checksum = "ab";
  ecdsa_signature = none;
  release_notes = none;
}

derive_factories-fleet : derive_factories fleet ≡ "north" ∷ "south" ∷ []
unfolding derive_factories add
derive_factories-fleet = refl

targets-fleet :
    derive_target_devices (derive_eligible_devices fleet) factory "north" []
    ≡ robot "r1" "north" online ∷ robot "r4" "north" online ∷ []
unfolding derive_target_devices derive_eligible_devices
targets-fleet = refl

sentinels-fleets : map (sentinels canary) (1 ∷ 5 ∷ 6 ∷ 100 ∷ []) ≡ 1 ∷ 1 ∷ 2 ∷ 20 ∷ []
unfolding sentinels
sentinels-fleets = refl

mem-derive_target_devices_example :
    Mem
      (robot "r1" "north" online)
      (derive_target_devices (derive_eligible_devices fleet) factory "north" [])
    ↔ (Mem (robot "r1" "north" online) fleet
        × (is_online (robot "r1" "north" online) ≡ true)
        × Chosen factory "north" [] (robot "r1" "north" online))
mem-derive_target_devices_example =
    mem-derive_target_devices fleet factory "north" [] (robot "r1" "north" online)

mem-prepare_deployment_payload_example :
    Mem "r4"
      (prepare_deployment_payload draft
        (derive_target_devices (derive_eligible_devices fleet) factory "north" [])).device_ids
    ↔ ∥ (
        (d : Device) × Mem d fleet
        × (is_online d ≡ true)
        × Chosen factory "north" [] d
        × (d.id ≡ "r4")) ∥₁
mem-prepare_deployment_payload_example = mem-prepare_deployment_payload fleet draft "r4"

is_valid_iff_example :
    ((evaluate_rollout_plan draft fleet none).is_valid ≡ true)
    ↔ ((draft.selected_fw_id ≢ "") × (fleet ≢ []))
is_valid_iff_example = is_valid_iff draft fleet none

length-warnings_example :
    length (evaluate_rollout_plan draft fleet (some release)).warnings
    ≡ length (filter (λ d. d.current_version == "1.0.0") fleet)
length-warnings_example = length-warnings draft fleet release

has_hardware_mismatch-eq-false_example :
    ((evaluate_rollout_plan draft fleet none).has_hardware_mismatch ≡ false)
    × ((evaluate_rollout_plan draft fleet none).mismatched_devices ≡ [])
has_hardware_mismatch-eq-false_example = has_hardware_mismatch-eq-false draft fleet none
