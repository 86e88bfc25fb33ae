-- ===== src/LaunchFlow/Examples.antt =====
-- One visit of the launch page, and the theorems about it at concrete inputs.
use ota_robot_system.Base.{
  ◌≡◌, refl, ◌+◌, ◌≤◌, ◌<◌, String, true, false, none, some, List, [], ◌∷◌, ◌++◌, All,
}
use ota_robot_system.Types.{Device, online, missing, FirmwareVersion}
use ota_robot_system.Types.Reply.{resolved, rejected}
use ota_robot_system.Types.Telemetry.{Thrown}
use ota_robot_system.Planning.{
  derive_eligible_devices, derive_target_devices, derive_factories, add,
}
use ota_robot_system.DeployForm.{Form, fetch_settle, default_factory, distinct}
use ota_robot_system.DeployForm.Launch.{
  handle_open_risk_modal, confirm_launch, launch_payload, launch_settle,
}
use ota_robot_system.DeployForm.View.{broadcast_disabled}
use ota_robot_system.LaunchFlow.{begin, Event, broadcasts, checks, confirms, replies, steps}
use ota_robot_system.LaunchFlow.Load.{Lists, loaded, steps-loaded-IsSafe}
use ota_robot_system.LaunchFlow.Requests.{IsSafe}
use ota_robot_system.LaunchFlow.Once.{steps-begin-once}
use ota_robot_system.LaunchFlow.Consent.{steps-consent}
use ota_robot_system.LaunchFlow.Clicks.{clicks, sent_state, IsReady, steps-clicks}

abbrev robot : String → Device
robot id = record {
  id = id;
  name = id;
  factory_id = "north";
  hw_model = "agv-v1";
  current_version = "1.0.0";
  status = online;
  last_seen = none;
  metadata = missing;
  ip_address = none;
  created_at = "2025-01-01T00:00:00Z";
  updated_at = "2025-01-01T00:00:00Z";
}

abbrev release : FirmwareVersion
release = record {
  id = "fw-1";
  version = "1.1.0";
  file_size = 2048;
  storage_key = "fw-1.bin";
  is_active = true;
  uploaded_by = none;
  created_at = "2025-01-01T00:00:00Z";
  sha256_checksum = "ab";
  ecdsa_signature = none;
  release_notes = none;
}

abbrev lists : Lists
lists = (some (release ∷ []), some (robot "r1" ∷ robot "r2" ∷ []))

abbrev page : Form
page = loaded none none (resolved lists)

-- A request that is accepted.
abbrev visit : List Event
visit = clicks ++ replies (resolved "d1") ∷ []

visit-sent : (steps (begin page) visit).accepted ≡ 1
unfolding steps default_factory fetch_settle derive_factories derive_target_devices
    derive_eligible_devices distinct add handle_open_risk_modal confirm_launch launch_settle
    broadcast_disabled
visit-sent = refl

steps-loaded-IsSafe_example :
    All (IsSafe page.devices page.firmwares) (steps (begin page) visit).sent
steps-loaded-IsSafe_example = steps-loaded-IsSafe none none (resolved lists) visit

idle-page : page.is_launching ≡ false
unfolding default_factory fetch_settle derive_factories
idle-page = refl

steps-begin-once_example :
    ((steps (begin page) visit).pending + (steps (begin page) visit).accepted ≤ 1)
    × (0 < (steps (begin page) visit).accepted
        → (steps (steps (begin page) visit) clicks).sent ≡ (steps (begin page) visit).sent)
steps-begin-once_example = steps-begin-once page visit clicks idle-page

shut-page : page.is_risk_modal_open ≡ false
unfolding default_factory fetch_settle derive_factories
shut-page = refl

-- The box was ticked, and the dialog was closed again.
abbrev hesitant : List Event
hesitant = broadcasts ∷ checks false ∷ confirms ∷ []

steps-consent_example : (steps (record (begin page) { acknowledged = true }) hesitant).sent ≡ []
steps-consent_example =
    steps-consent (record (begin page) { acknowledged = true }) hesitant shut-page refl

page-IsReady : IsReady page
unfolding default_factory fetch_settle derive_factories derive_target_devices
    derive_eligible_devices distinct add broadcast_disabled
page-IsReady = (refl, refl, refl, refl)

steps-clicks_example :
    (steps (begin page) clicks ≡ sent_state (begin page))
    × ((steps (begin page) (clicks ++ replies (rejected Thrown.other_value) ∷ confirms ∷ [])).sent
        ≡ launch_payload page ∷ launch_payload page ∷ [])
steps-clicks_example = steps-clicks (begin page) Thrown.other_value page-IsReady
