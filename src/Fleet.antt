-- ===== src/Fleet.antt =====
-- The overview of the fleet (frontend/src/app/page.tsx): its state, its loading, the removal of
-- robots that are offline, and the counts. The dates of the browser are texts.
pub mod Filters
pub mod Options
pub mod Loading
pub mod Desk
pub mod View
pub mod Examples
use ota_robot_system.Base.{
  ℕ, String, Bool, true, false, not, ◌&&◌, ◌||◌, Option, none, some, List, [], ◌∷◌, filter, length,
  ltb, codes, to_lower_case, contains, ◌==◌, string_eq, if◌then◌else◌, concat, Out, toast, success,
  error, default_duration,
}
use ota_robot_system.Types.{Device, DeviceStatus, online, offline, updating, status_text}
use ota_robot_system.Types.Telemetry.{get_error_message}
use ota_robot_system.Types.Reply.{Reply, resolved, rejected}
use ota_robot_system.DeployForm.{data_or_empty}
use ota_robot_system.Pagination.{page_rows}

pub record Fleet : Type 0 where
  pub devices : List Device
  pub loading : Bool
  pub search : String
  pub status_filter : String
  pub model_filter : String
  pub factory_filter : String
  pub current_page : ℕ
  pub page_size : ℕ
  pub selected_device : Option Device
  pub last_updated : Option String
  pub is_refreshing : Bool
  pub load_error : Option String
  pub is_pruning : Bool
  pub show_prune_confirm : Bool

abbrev pub initial : Fleet
initial = record {
  devices = [];
  loading = true;
  search = "";
  status_filter = "all";
  model_filter = "all";
  factory_filter = "all";
  current_page = 1;
  page_size = 10;
  selected_device = none;
  last_updated = none;
  is_refreshing = false;
  load_error = none;
  is_pruning = false;
  show_prune_confirm = false;
}

-- `loadFleet(silent)` up to the call.
unfoldable pub load_start : Bool → Fleet → Fleet
load_start silent s = if not silent then record s { is_refreshing = true } else s

-- The rest of `loadFleet`, at the time `now`.
unfoldable pub load_settle : String → Reply (Option (List Device)) → Fleet → Fleet
load_settle now (resolved answer) s = record s {
  devices = data_or_empty answer;
  last_updated = some now;
  load_error = none;
  loading = false;
  is_refreshing = false;
}
load_settle now (rejected e) s = record s {
  load_error = some "Live fleet data is unavailable. Showing the last successful snapshot.";
  loading = false;
  is_refreshing = false;
}

unfoldable pub prune_start : Fleet → Fleet
prune_start s = record s { is_pruning = true }

-- The rest of `handlePruneOffline`. A good answer gives the number of the robots removed, in text,
-- and the fleet is loaded again: `reload` is what this changes.
unfoldable pub prune_settle : (Fleet → Fleet) → Reply String → Fleet → Out Fleet
prune_settle reload (resolved deleted_count) s = record {
  state = record (reload (record s { show_prune_confirm = false })) { is_pruning = false };
  effects =
      toast "Offline Units Pruned"
        (concat "Successfully cleaned up "
          (concat deleted_count " offline robot records from registry"))
        success default_duration
      ∷ [];
}
prune_settle reload (rejected e) s = record {
  state = record s { is_pruning = false };
  effects =
      toast "Prune Failed" (get_error_message e "Failed to prune offline devices") error
        default_duration
      ∷ [];
}

-- The text is part of the robot's id, its name or its model, in any case.
unfoldable pub matches_search : String → Device → Bool
matches_search search d =
    contains (to_lower_case d.id) (to_lower_case search)
    || contains (to_lower_case d.name) (to_lower_case search)
    || contains (to_lower_case d.hw_model) (to_lower_case search)

-- A list that stands at "all" lets every robot pass.
unfoldable pub passes : String → String → Bool
passes chosen value = chosen == "all" || value == chosen

unfoldable pub matches : Fleet → Device → Bool
unfolding matches_search passes
matches s d =
    matches_search s.search d
    && passes s.status_filter (status_text d.status)
    && passes s.model_filter d.hw_model
    && passes s.factory_filter d.factory_id

unfoldable pub filtered_devices : Fleet → List Device
unfolding matches
filtered_devices s = filter (matches s) s.devices

-- The rows of the table.
abbrev pub paginated_devices : Fleet → List Device
paginated_devices s = page_rows s.current_page s.page_size (filtered_devices s)

-- The four fields of the filter bar. A change of one runs the effect that goes to the first page.
pub data Field : Type 0 where
  by_search by_status by_model by_factory : Field

unfoldable pub set_field : Field → String → Fleet → Fleet
set_field by_search v s = record s { search = v; current_page = 1 }
set_field by_status v s = record s { status_filter = v; current_page = 1 }
set_field by_model v s = record s { model_filter = v; current_page = 1 }
set_field by_factory v s = record s { factory_filter = v; current_page = 1 }

unfoldable pub reset : Fleet → Fleet
reset s = record s {
  search = "";
  status_filter = "all";
  model_filter = "all";
  factory_filter = "all";
  current_page = 1;
}

unfoldable pub reset_disabled : Fleet → Bool
reset_disabled s =
    s.status_filter == "all"
    && s.model_filter == "all"
    && s.factory_filter == "all"
    && s.search == ""

-- The pager's callbacks, the dialog of one robot, and the question before the removal.
unfoldable pub change_page : ℕ → Fleet → Fleet
change_page page s = record s { current_page = page }

unfoldable pub change_page_size : ℕ → Fleet → Fleet
change_page_size size s = record s { page_size = size }

unfoldable pub select_device : Option Device → Fleet → Fleet
select_device d s = record s { selected_device = d }

unfoldable pub ask_prune : Bool → Fleet → Fleet
ask_prune b s = record s { show_prune_confirm = b }

pub record Stats : Type 0 where
  pub total : ℕ
  pub online_count : ℕ
  pub updating_count : ℕ
  pub offline_count : ℕ

abbrev pub has_status : DeviceStatus → Device → Bool
has_status status d = status_text d.status == status_text status

unfoldable pub stats : Fleet → Stats
stats s = record {
  total = length s.devices;
  online_count = length (filter (has_status online) s.devices);
  updating_count = length (filter (has_status updating) s.devices);
  offline_count =
      length (filter (λ d. has_status offline d || has_status DeviceStatus.error d) s.devices);
}

-- What stands where the removal is offered: nothing, the button, or the question with the number.
pub data PruneControl : Type 0 where
  hidden : PruneControl
  button confirmation : ℕ → PruneControl

unfoldable pub prune_control : Fleet → PruneControl
unfolding stats
prune_control s =
    if ltb 0 (stats s).offline_count
    then if s.show_prune_confirm
      then confirmation (stats s).offline_count
      else button (stats s).offline_count
    else hidden
