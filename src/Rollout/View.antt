-- ===== src/Rollout/View.antt =====
-- What the monitor of a rollout shows (frontend/src/app/deployments/[id]/page.tsx).
use ota_robot_system.Base.{
  ℕ, String, Bool, true, false, not, Option, none, some, List, map, length, get_or, or_else, ◌==◌,
  nat_eq, if◌then◌else◌, concat,
}
use ota_robot_system.Types.{Deployment, Strategy, full, canary}
use ota_robot_system.Types.Units.{DeploymentDevice, UnitStatus}
use ota_robot_system.Pagination.{page_rows}
use ota_robot_system.Rollout.{Monitor}
use ota_robot_system.Rollout.Progress.{
  RowNote, row_note, version_transition, phase_label, phase_reached,
}
use ota_robot_system.Rollout.Rollback.{is_rolled_back}

-- The page before a rollout is known, and after it.
pub data Stage : Type 0 where
  connecting not_found : Stage
  monitoring : Deployment → Stage

stage_of : Bool → Option Deployment → Stage
stage_of true none = connecting
stage_of false none = not_found
stage_of loading (some d) = monitoring d

unfoldable pub stage : Monitor → Stage
unfolding stage_of
stage s = stage_of s.loading s.deployment

pub record Button : Type 0 where
  pub text : String
  pub disabled : Bool

-- The button for the rollback, which a rollout that was rolled back does not have.
unfoldable pub rollback_button : Monitor → Deployment → Option Button
rollback_button s d =
    if not (is_rolled_back d)
    then some (record {
      text =
          if s.is_rolling_back then "Aborting & Rolling Back..." else "Trigger Emergency Rollback";
      disabled = s.is_rolling_back;
    })
    else none

is_canary : Strategy → Bool
is_canary full = false
is_canary canary = true

-- The part of a canary plan: the phase in words, and which of its three boxes are lit.
pub record Phases : Type 0 where
  pub text : String
  pub first : Bool
  pub second : Bool
  pub third : Bool

unfoldable pub phases : (ℕ → String) → Deployment → Option Phases
unfolding is_canary
phases decimal d =
    if is_canary d.strategy
    then some (record {
      text = phase_label decimal d;
      first = phase_reached 1 d;
      second = phase_reached 2 d;
      third = phase_reached 3 d;
    })
    else none

pub data BarColor : Type 0 where
  failure success primary : BarColor

bar_color : UnitStatus → BarColor
bar_color UnitStatus.failed = failure
bar_color UnitStatus.success = success
bar_color _ = primary

pub record Row : Type 0 where
  pub device_id : String
  pub hw_model : String
  pub factory_id : String
  pub transition : String
  pub progress : ℕ
  pub color : BarColor
  pub status : UnitStatus
  pub note : RowNote

unfoldable pub row : String → DeploymentDevice → Row
unfolding bar_color
row target_version d = record {
  device_id = d.device_id;
  hw_model = or_else (get_or d.hw_model "") "sim-v1";
  factory_id = or_else (get_or d.factory_id "") "factory-local";
  transition = version_transition target_version d;
  progress = d.progress;
  color = bar_color d.status;
  status = d.status;
  note = row_note d;
}

-- The rows of the page of the table; without robots the table says so and has no pager.
unfoldable pub rows : Monitor → Option (List Row)
unfolding row
rows s =
    if length s.devices == 0
    then none
    else some (map (row s.target_version) (page_rows s.current_page s.page_size s.devices))

-- The text of the dialog behind a rollout that has finished.
unfoldable pub completion_text : (ℕ → String) → Monitor → Deployment → String
completion_text decimal s d = concat "Target firmware v" (
    concat (or_else s.target_version (or_else (get_or d.firmware_version "") "Target")) (
      concat " has been deployed and verified across "
        (concat (decimal d.total_devices) " robot units.")))

-- `setCurrentPage` and `setPageSize`, as the pager of the table calls them.
unfoldable pub change_page : ℕ → Monitor → Monitor
change_page n s = record s { current_page = n }

unfoldable pub change_page_size : ℕ → Monitor → Monitor
change_page_size n s = record s { page_size = n }

unfoldable pub close_completion : Monitor → Monitor
close_completion s = record s { show_completion_modal = false }
