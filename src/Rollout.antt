-- ===== src/Rollout.antt =====
-- The monitor of one rollout (frontend/src/app/deployments/[id]/page.tsx): its state, its loading,
-- the notice when the rollout has finished, and the rollback. Numbers in texts are arguments:
-- `decimal` is the browser's writing of a number.
pub mod Notice
pub mod Progress
pub mod Rollback
pub mod Emergency
pub mod View
pub mod Examples
use ota_robot_system.Base.{
  ℕ, ◌+◌, ◌*◌, ◌/◌, String, Bool, true, false, not, ◌&&◌, ◌||◌, Option, none, some, List, [], ◌∷◌,
  ◌++◌, length, ltb, leb, truthy, get_or, ◌==◌, nat_eq, if◌then◌else◌, concat, Out, only, Effect,
  toast, success, error, warning, default_duration,
}
use ota_robot_system.Types.{
  Deployment, DeploymentStatus, pending, running, completed, failed, rolled_back,
}
use ota_robot_system.Types.Units.{DeploymentDevice}
use ota_robot_system.Types.Telemetry.{get_error_message}
use ota_robot_system.Types.Reply.{Reply, resolved, rejected}
use ota_robot_system.DeployForm.{data_or_empty}

-- The answer of `getDeployment`.
pub record Answer : Type 0 where
  pub deployment : Deployment
  pub devices : Option (List DeploymentDevice)
  pub target_version : Option String

pub record Monitor : Type 0 where
  pub deployment : Option Deployment
  pub devices : List DeploymentDevice
  pub target_version : String
  pub loading : Bool
  pub current_page : ℕ
  pub page_size : ℕ
  pub is_rolling_back : Bool
  pub is_rollback_modal_open : Bool
  pub rollback_msg : Option String
  pub show_completion_modal : Bool
  pub load_error : Option String
  -- the current value of `completionNotifiedRef`
  pub completion_notified : Bool

abbrev pub initial : Monitor
initial = record {
  deployment = none;
  devices = [];
  target_version = "";
  loading = true;
  current_page = 1;
  page_size = 10;
  is_rolling_back = false;
  is_rollback_modal_open = false;
  rollback_msg = none;
  show_completion_modal = false;
  load_error = none;
  completion_notified = false;
}

-- `if (v) setTargetVersion(v)`.
version_or : Option String → String → String
version_or none old = old
version_or (some v) old = if truthy v then v else old

-- `loadData`, when the call has ended; without an id nothing is called.
unfoldable pub load_settle : Reply Answer → Monitor → Monitor
unfolding version_or
load_settle (resolved a) s = record s {
  deployment = some a.deployment;
  devices = data_or_empty a.devices;
  target_version = version_or a.target_version s.target_version;
  load_error = none;
  loading = false;
}
load_settle (rejected e) s = record s {
  load_error = some "Live rollout telemetry is unavailable. Displayed progress may be stale.";
  loading = false;
}

-- `deployment.status === "completed"`.
abbrev pub is_completed : Deployment → Bool
is_completed d = elim d.status [
  | pending ↦ false
  | running ↦ false
  | completed ↦ true
  | failed ↦ false
  | rolled_back ↦ false
]

abbrev pub completed_count : Deployment → ℕ
completed_count d = d.success_count + d.failure_count

unfoldable pub is_finished : Deployment → Bool
is_finished d = (ltb 0 d.total_devices && leb d.total_devices (completed_count d)) || is_completed d

module _ (decimal : ℕ → String) where
  -- The notification of a rollout that has finished.
  unfoldable pub notice : Deployment → Effect
  notice d =
      if is_completed d || d.failure_count == 0
      then toast "Rollout Completed Successfully"
          (concat "All "
            (concat (decimal d.total_devices) " robot units have finished firmware upgrade (100%)"))
          success 6000
      else toast "Rollout Finished with Failures"
          (concat (decimal d.success_count) (
            concat " succeeded, " (
              concat (decimal d.failure_count)
                (concat " failed out of " (concat (decimal d.total_devices) " units")))))
          warning 6000

  unfoldable pub notify : Option Deployment → Monitor → Out Monitor
  unfolding is_finished
  notify none s = only s
  notify (some d) s =
      if is_finished d && not s.completion_notified
      then record {
        state = record s { completion_notified = true; show_completion_modal = true };
        effects = notice d ∷ [];
      }
      else only s

  -- The effect that runs when the rollout has changed.
  unfoldable pub completion_effect : Monitor → Out Monitor
  unfolding notify
  completion_effect s = notify s.deployment s

  -- Answers one after the other, each with the effect behind it: the state and all effects.
  unfoldable pub loads : Monitor → List (Reply Answer) → Monitor × List Effect
  unfolding completion_effect load_settle
  loads s [] = (s, [])
  loads s (r ∷ rs) =
      let now = completion_effect (load_settle r s) in
      let later = loads now.state rs in (later.0, now.effects ++ later.1)
