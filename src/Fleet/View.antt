-- ===== src/Fleet/View.antt =====
-- What the overview shows (frontend/src/app/page.tsx).
use ota_robot_system.Base.{
  ℤ, String, Option, some, List, [], ◌∷◌, map, length, or_else, ◌==◌, nat_eq, if◌then◌else◌, concat,
}
use ota_robot_system.Types.{Device, status_text}
use ota_robot_system.Badge.{Badge, status_badge}
use ota_robot_system.Badge.Metric.{MetricCard, metric_card, blue, emerald, cyan, rose}
use ota_robot_system.Fleet.{Fleet, filtered_devices, paginated_devices, stats, reset_disabled}
use ota_robot_system.Fleet.Options.{
  RelativeTime, format_relative_time, format_robot_model, robot_models, factories,
}

-- The four cards.
unfoldable pub cards : Fleet → List MetricCard
cards s =
    metric_card "Total Units" (stats s).total (some "Registered robot nodes") (some blue)
    ∷ metric_card "Units Online" (stats s).online_count (some "Broadcasting heartbeats")
        (some emerald)
    ∷ metric_card "Flashing / Updating" (stats s).updating_count (some "Firmware in progress")
        (some cyan)
    ∷ metric_card "Units Offline" (stats s).offline_count (some "Unreachable units") (some rose)
    ∷ []

-- An entry of a list: its value and its text.
unfoldable pub status_options : List (String × String)
status_options =
    ("all", "All Statuses")
    ∷ ("online", "Online")
    ∷ ("offline", "Offline")
    ∷ ("updating", "Updating")
    ∷ ("error", "Error")
    ∷ []

unfoldable pub model_options : Fleet → List (String × String)
model_options s =
    ("all", "All Robot Types") ∷ map (λ m. (m, format_robot_model m)) (robot_models s.devices)

unfoldable pub factory_options : Fleet → List (String × String)
factory_options s = ("all", "All Factories") ∷ map (λ f. (f, f)) (factories s.devices)

unfoldable pub reset_title : Fleet → String
reset_title s =
    if reset_disabled s then "No active filters to reset" else "Reset all filters to default"

pub record Row : Type 0 where
  pub name : String
  pub factory_id : String
  pub hw_model : String
  pub firmware : String
  pub status : Badge
  pub last_seen : RelativeTime
  pub deploy_href : String

-- `elapsed` gives the milliseconds from a date up to now.
unfoldable pub row : (String → Option ℤ) → Device → Row
row elapsed d = record {
  name = or_else d.name d.id;
  factory_id = d.factory_id;
  hw_model = d.hw_model;
  firmware = concat "v" d.current_version;
  status = status_badge (status_text d.status);
  last_seen = format_relative_time elapsed d.last_seen;
  deploy_href = concat "/deploy?device=" d.id;
}

pub data Table : Type 0 where
  loading_row empty_row : Table
  rows : List Row → Table

unfoldable pub table : (String → Option ℤ) → Fleet → Table
unfolding row
table elapsed s =
    if s.loading
    then loading_row
    else if length (filtered_devices s) == 0
    then empty_row
    else rows (map (row elapsed) (paginated_devices s))
