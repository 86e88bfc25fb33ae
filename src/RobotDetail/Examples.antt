-- ===== src/RobotDetail/Examples.antt =====
-- Robots and what their dialogs show, and the theorems about it at concrete inputs.
use ota_robot_system.Base.{
  pos, negsuc, ◌≡◌, ◌≢◌, ◌↔◌, refl, true, false, Option, none, some, to_lower_case, contains,
}
use ota_robot_system.Types.{Device, DeviceStatus, online, offline, updating, missing, is_online}
use ota_robot_system.Types.Telemetry.{DeviceTelemetry, number}
use ota_robot_system.RobotDetail.{
  is_agv, activity, is_busy, battery_ok, battery_level, can_deploy, get_signal_strength, fair,
}
use ota_robot_system.RobotDetail.View.{workload_label, gate_label, launch, footer, offers_removal}
use ota_robot_system.RobotDetail.Interlock.{Charged, can_deploy_iff, updating-offers_removal}
use ota_robot_system.Base.{
  String, List, [], ◌∷◌, All, false, ◌≤◌, Mem, if◌then◌else◌, arith, eq_iff, ◌==◌, string_eq,
}
use mathlib.Core.List.{mem-cons_self}
use ota_robot_system.Types.{FirmwareVersion}
use ota_robot_system.Types.Reply.{resolved}
use ota_robot_system.DeployForm.{target_devices}
use ota_robot_system.LaunchFlow.Load.{loaded}
use ota_robot_system.RobotDetail.{is_charging}
use ota_robot_system.RobotDetail.Card.{Bar, Card, warning, battery, battery_card}
use ota_robot_system.RobotDetail.Decommission.{
  Event, begin, selects, closes, asks, confirms, step, steps, confirm, set_confirm_delete,
}
use ota_robot_system.RobotDetail.Decommission.Safe.{steps-begin-IsSafe}
use ota_robot_system.RobotDetail.Link.{deploy_href, target_devices-deploy_href}

abbrev carrier : DeviceStatus → Device
carrier status = record {
  id = "r1";
  name = "Carrier";
  factory_id = "north";
  hw_model = "AGV-v1";
  current_version = "1.0.0";
  status = status;
  last_seen = none;
  metadata = missing;
  ip_address = none;
  created_at = "2025-01-01T00:00:00Z";
  updated_at = "2025-01-01T00:00:00Z";
}

abbrev report : Option DeviceTelemetry
report = some (record {
  battery_level = some (number (pos 49));
  is_charging = none;
  network_rssi = some (negsuc 74);
  network_bandwidth = none;
  power_mode = none;
  fsm_state = none;
  activity = some "idle";
})

is_agv-carrier : is_agv (carrier online) ≡ true
unfolding is_agv to_lower_case contains
is_agv-carrier = refl

gate_label-carrier : gate_label (carrier online) report ≡ "Locked (Low Battery)"
unfolding gate_label is_busy activity battery_ok battery_level is_agv to_lower_case contains
gate_label-carrier = refl

signal-carrier : get_signal_strength (carrier online) (negsuc 74) ≡ fair
unfolding get_signal_strength
signal-carrier = refl

can_deploy_iff_example : (can_deploy (carrier online) report ≡ true) ↔ (
    ((carrier online).status ≡ online)
    × (activity (carrier online) report ≢ "running_program")
    × (activity (carrier online) report ≢ "operating")
    × (is_agv (carrier online) ≡ true → Charged report))
can_deploy_iff_example = can_deploy_iff (carrier online) report

updating-offers_removal_example :
    (workload_label (carrier updating) report ≡ "OFFLINE")
    × (gate_label (carrier updating) report ≡ "Blocked (Offline)")
    × (offers_removal (carrier updating) report ≡ true)
updating-offers_removal_example = updating-offers_removal (carrier updating) report refl

-- A charged carrier.
abbrev full : Option DeviceTelemetry
full = some (record {
  battery_level = some (number (pos 80));
  is_charging = none;
  network_rssi = none;
  network_bandwidth = none;
  power_mode = none;
  fsm_state = none;
  activity = some "idle";
})

can_deploy-full : can_deploy (carrier online) full ≡ true
unfolding can_deploy is_busy activity battery_level is_agv to_lower_case contains
can_deploy-full = refl

-- The bar of the low carrier.
abbrev low_bar : Bar
low_bar = record { level = pos 49; width = pos 49; color = warning }

abbrev low_card : Card
low_card = record { icon = battery; power = "Discharging (On Battery)"; bar = some low_bar }

battery_card-low : battery_card (carrier online) report ≡ some low_card
unfolding battery_card battery_level is_charging is_agv to_lower_case contains
battery_card-low = refl

abbrev fleet : List Device
fleet = carrier online ∷ []

abbrev release : FirmwareVersion
release = record {
  id = "fw-1";
  version = "1.1.0";
  file_size = 2048;
  storage_key = "fw-1.bin";
  is_active = true;
  uploaded_by = none;
  created_at = "2025-01-01T00:00:00Z";
  sha256_checksum = "ab";
  ecdsa_signature = none;
  release_notes = none;
}

-- An id without special characters is encoded as it is, and this one address is read.
abbrev search_device : String → Option String
search_device url = if url == "/deploy?device=r1" then some "r1" else none

target_devices-deploy_href_example :
    (footer (carrier online) full ≡ launch)
    × ((c : Device)
        → Mem c (
            target_devices (
              loaded none
                (search_device (deploy_href (λ s. s) (carrier online)))
                (resolved (some (release ∷ []), some fleet))))
          ↔ (Mem c fleet × (is_online c ≡ true) × (c.id ≡ "r1")))
    × Mem (carrier online) (
        target_devices (
          loaded none
            (search_device (deploy_href (λ s. s) (carrier online)))
            (resolved (some (release ∷ []), some fleet))))
unfolding deploy_href
target_devices-deploy_href_example =
    target_devices-deploy_href (λ s. s) search_device (carrier online) full (release ∷ []) fleet
      refl (ground (arith, eq_iff "r1" "")) mem-cons_self can_deploy-full

-- A lost robot is removed by two quick clicks, while another one is looked at.
abbrev clicks : List Event
clicks =
    selects (carrier offline)
    ∷ asks
    ∷ confirms
    ∷ confirms
    ∷ closes
    ∷ selects (carrier updating)
    ∷ []

steps-begin-clicks : (steps begin clicks).asked ≡ carrier offline ∷ []
unfolding steps step confirm set_confirm_delete
steps-begin-clicks = refl

steps-begin-IsSafe_example :
    All (λ d. is_online d ≡ false) (steps begin clicks).asked × ((steps begin clicks).calling ≤ 1)
steps-begin-IsSafe_example = steps-begin-IsSafe clicks
