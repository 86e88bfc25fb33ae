-- ===== src/Fleet/Examples.antt =====
-- The overview at work, and the theorems about it at concrete inputs.
use ota_robot_system.Base.{
  All, if◌then◌else◌, ◌≡◌, ◌+◌, refl, ℤ, pos, String, true, false, Option, none, some, List, [],
  ◌∷◌, filter, length, contains, to_lower_case, string_eq,
}
use ota_robot_system.Types.{Device, DeviceStatus, online, offline, updating, missing}
use ota_robot_system.Planning.{add}
use ota_robot_system.Types.Telemetry.{other_value}
use ota_robot_system.Types.Reply.{resolved, rejected}
use ota_robot_system.Fleet.{
  Fleet, initial, filtered_devices, set_field, by_search, has_status, load_start, load_settle,
  prune_control, ask_prune, prune_start,
}
use ota_robot_system.Fleet.Loading.{load_settle-load_start, prune_control-confirmation, is_in_error}
use ota_robot_system.Fleet.Options.{robot_models}
use ota_robot_system.Fleet.Desk.{
  begin, Event, edits, sets, loads, answers, offers, confirms, edit, confirm, step, steps,
}
use ota_robot_system.Fleet.Desk.Prunes.{HasOffline, steps-begin-HasOffline}
use ota_robot_system.Fleet.View.{reset_title}
use ota_robot_system.Fleet.{reset_disabled}

abbrev robot : String → String → DeviceStatus → Device
robot id model status = record {
  id = id;
  name = id;
  factory_id = "north";
  hw_model = model;
  current_version = "1.0.0";
  status = status;
  last_seen = none;
  metadata = missing;
  ip_address = none;
  created_at = "2025-01-01T00:00:00Z";
  updated_at = "2025-01-01T00:00:00Z";
}

abbrev robots : List Device
robots =
    robot "R1" "scara-v1" online
    ∷ robot "R2" "agv-v1" offline
    ∷ robot "R3" "agv-v1" DeviceStatus.error
    ∷ robot "R4" "delta-v2" updating
    ∷ []

abbrev overview : Fleet
overview = record initial { devices = robots; current_page = 3; show_prune_confirm = true }

filtered-search : length (filtered_devices (set_field by_search "AGV" overview)) ≡ 2
unfolding filtered_devices set_field contains to_lower_case
filtered-search = refl

robot_models-order : robot_models robots ≡ "agv-v1" ∷ "delta-v2" ∷ "scara-v1" ∷ []
unfolding robot_models add
robot_models-order = refl

load_settle-load_start_example :
    let lost = load_settle "12:00" (rejected other_value) (load_start true overview) in
    let got = load_settle "12:00" (resolved (some [])) (load_start true overview) in
    ((lost.devices ≡ robots) × (lost.last_updated ≡ none))
    × (lost.load_error
        ≡ some "Live fleet data is unavailable. Showing the last successful snapshot.")
    × ((got.devices ≡ []) × (got.last_updated ≡ some "12:00") × (got.load_error ≡ none))
    × ((lost.loading ≡ false) × (lost.is_refreshing ≡ false))
    × ((got.loading ≡ false) × (got.is_refreshing ≡ false))
load_settle-load_start_example = load_settle-load_start true overview "12:00" other_value []

prune_control-confirmation_example :
    2 ≡ length (filter (has_status offline) robots) + length (filter is_in_error robots)
unfolding prune_control
prune_control-confirmation_example = prune_control-confirmation overview 2 refl

abbrev two_minutes : String → Option ℤ
two_minutes date = some (pos 125000)

reset_title-search :
    reset_title (record overview { search = "arm" }) ≡ "Reset all filters to default"
unfolding reset_title reset_disabled
reset_title-search = refl

-- The fleet is loaded, and the robots that are offline are removed by two quick clicks.
abbrev cleaning : List Event
cleaning =
    loads false
    ∷ answers "12:00" (resolved (some robots))
    ∷ edits (sets by_search "agv")
    ∷ offers true
    ∷ confirms
    ∷ confirms
    ∷ []

steps-begin-cleaning :
    ((steps begin cleaning).asked ≡ robots ∷ []) × ((steps begin cleaning).calling ≡ 1)
unfolding steps step edit confirm load_start load_settle set_field prune_control ask_prune
    prune_start
steps-begin-cleaning = (refl, refl)

steps-begin-HasOffline_example :
    let s = steps begin cleaning in
    All HasOffline s.asked × (s.calling + s.reloading ≡ (if s.fleet.is_pruning then 1 else 0))
steps-begin-HasOffline_example = steps-begin-HasOffline cleaning
