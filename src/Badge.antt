-- ===== src/Badge.antt =====
-- The badge of a status (frontend/src/components/StatusBadge.tsx), and the history of the rollouts
-- that shows it (frontend/src/app/deployments/page.tsx). A text to show is a list of code points.
pub mod Metric
pub mod Rows
pub mod Examples
use ota_robot_system.Base.{
  ℕ, ◌-◌, String, Bool, true, false, ◌&&◌, ◌||◌, Option, none, some, List, [], ◌∷◌, codes,
  to_lower_case, to_upper_case, ◌++◌, ltb, length, ◌==◌, nat_eq, if◌then◌else◌,
}
use ota_robot_system.Types.{Deployment}
use ota_robot_system.Types.Reply.{Reply, resolved, rejected}
use ota_robot_system.DeployForm.{data_or_empty}
use ota_robot_system.Pagination.{page_rows}

-- The colours: of success, work in progress, failure, a rollback, waiting, and all else.
pub data Tone : Type 0 where
  success primary failure secure pending muted : Tone

pub record Badge : Type 0 where
  pub tone : Tone
  -- the dot that is shown is animated
  pub animated : Bool
  pub label : List ℕ

same_codes : List ℕ → List ℕ → Bool
same_codes [] [] = true
same_codes (c ∷ cs) (d ∷ ds) = c == d && same_codes cs ds
same_codes (c ∷ cs) [] = false
same_codes [] (d ∷ ds) = false

-- The cases of the `switch`, on the status in small letters.
is_word : List ℕ → String → Bool
unfolding same_codes
is_word s word = same_codes s (codes word)

-- `status.charAt(0).toUpperCase() + status.slice(1)`.
capital : List ℕ → List ℕ
capital [] = []
capital (c ∷ cs) = to_upper_case (c ∷ []) ++ cs

badge_of : List ℕ → List ℕ → Badge
unfolding is_word capital
badge_of s text =
    if is_word s "online" || is_word s "success" || is_word s "completed"
    then record { tone = success; animated = true; label = capital text }
    else if is_word s "updating"
        || is_word s "running"
        || is_word s "downloading"
        || is_word s "installing"
    then record { tone = primary; animated = true; label = capital text }
    else if is_word s "failed" || is_word s "error"
    then record { tone = failure; animated = false; label = capital text }
    else if is_word s "rolled_back"
    then record { tone = secure; animated = false; label = codes "Rolled Back" }
    else if is_word s "pending"
    then record { tone = pending; animated = false; label = codes "Pending" }
    else record { tone = muted; animated = false; label = capital text }

unfoldable pub status_badge : String → Badge
unfolding badge_of
status_badge status = badge_of (to_lower_case status) (codes status)

pub record History : Type 0 where
  pub deployments : List Deployment
  pub loading : Bool
  pub current_page : ℕ
  pub page_size : ℕ
  pub load_error : Option String

abbrev pub initial : History
initial = record {
  deployments = [];
  loading = true;
  current_page = 1;
  page_size = 10;
  load_error = none;
}

-- `loadDeployments`, when the call has ended.
unfoldable pub load_settle : Reply (Option (List Deployment)) → History → History
load_settle (resolved answer) s = record s {
  deployments = data_or_empty answer;
  load_error = none;
  loading = false;
}
load_settle (rejected e) s = record s {
  load_error = some "Rollout history could not be refreshed. Existing rows may be stale.";
  loading = false;
}

-- What a row counts: the successes, and the failures if there are any.
pub record Results : Type 0 where
  pub succeeded : ℕ
  pub failed : Option ℕ

unfoldable pub results : Deployment → Results
results d = record {
  succeeded = d.success_count;
  failed = if ltb 0 d.failure_count then some d.failure_count else none;
}

-- The body of the table.
pub data Table : Type 0 where
  loading_row empty_row : Table
  rows : List Deployment → Table

unfoldable pub table : History → Table
table s =
    if s.loading
    then loading_row
    else if length s.deployments == 0
    then empty_row
    else rows (page_rows s.current_page s.page_size s.deployments)

-- The pager of the table.
unfoldable pub change_page : ℕ → History → History
change_page n s = record s { current_page = n }

unfoldable pub change_page_size : ℕ → History → History
change_page_size n s = record s { page_size = n }
