-- ===== src/Rollout/Emergency.antt =====
-- The emergency rollback as the operator meets it (frontend/src/app/deployments/[id]/page.tsx with
-- frontend/src/components/RollbackRiskModal.tsx in it): the monitor with its polls, the consent of
-- the dialog, and the calls of the control plane, under any sequence of clicks and answers.
mod Guards
pub mod Once
pub mod Final
use ota_robot_system.Base.{
  ℕ, ◌+◌, ◌-◌, Bool, true, false, not, ◌&&◌, ◌||◌, Option, none, some, List, [], ◌∷◌, is_some, ltb,
  ◌==◌, nat_eq, if◌then◌else◌,
}
use ota_robot_system.Types.{Deployment}
use ota_robot_system.Types.Reply.{Reply, resolved, rejected}
use ota_robot_system.Rollout.{Monitor, Answer, load_settle, completion_effect}
use ota_robot_system.Rollout.Rollback.{open_rollback_modal, rollback_start, is_rolled_back}

pub record Watch : Type 0 where
  pub monitor : Monitor
  -- the box of the risk assessment
  pub acknowledged : Bool
  -- calls of `rollbackDeployment` without an answer, and reloads after a good one without theirs
  pub calling : ℕ
  pub reloading : ℕ
  -- the calls that were made
  pub requested : ℕ

abbrev pub begin : Monitor → Watch
begin m = record { monitor = m; acknowledged = false; calling = 0; reloading = 0; requested = 0 }

pub data Event : Type 0 where
  polled : Reply Answer → Event
  opens : Event
  checks : Bool → Event
  confirms cancels : Event
  replies : Reply (Unit {0}) → Event
  reloaded : Reply Answer → Event

-- The page is rendered with the dialog in it.
abbrev pub is_shown : Monitor → Bool
is_shown m = m.is_rollback_modal_open && is_some m.deployment

-- The button is there: a rollout is shown that was not rolled back.
can_open : Option Deployment → Bool
can_open none = false
can_open (some d) = not (is_rolled_back d)

-- The click on the button; a dialog that opens starts with its box empty.
unfoldable pub open_dialog : Watch → Watch
unfolding can_open open_rollback_modal
open_dialog s =
    if can_open s.monitor.deployment && not s.monitor.is_rolling_back && not (is_shown s.monitor)
    then record s {
      monitor = open_rollback_modal s.monitor;
      acknowledged = s.acknowledged && s.monitor.is_rollback_modal_open;
    }
    else s

-- `handleConfirm` of the dialog, which calls `handleConfirmRollback`.
unfoldable pub confirm : Watch → Watch
unfolding rollback_start
confirm s =
    if is_shown s.monitor && s.acknowledged && not s.monitor.is_rolling_back
    then record s {
      monitor = rollback_start s.monitor;
      calling = s.calling + 1;
      requested = s.requested + 1;
    }
    else s

unfoldable pub cancel : Watch → Watch
cancel s =
    if is_shown s.monitor && not s.monitor.is_rolling_back
    then record s { monitor = record s.monitor { is_rollback_modal_open = false } }
    else s

answered : Reply (Unit {0}) → Watch → Watch
answered (resolved u) s = record s {
  monitor = record s.monitor {
    is_rollback_modal_open = false;
    rollback_msg = some "Rollback command dispatched to all fleet units!";
  };
  calling = s.calling - 1;
  reloading = s.reloading + 1;
}
answered (rejected e) s = record s {
  monitor = record s.monitor { is_rolling_back = false };
  calling = s.calling - 1;
}

-- An answer, to a call that waits for one: after a good one the rollout is loaded again.
unfoldable pub answer : Reply (Unit {0}) → Watch → Watch
unfolding answered
answer r s = if ltb 0 s.calling then answered r s else s

-- A rollout that was loaded, with the effect behind it. Its notification is left
-- out, and with it the writing of numbers.
unfoldable pub show : Reply Answer → Monitor → Monitor
unfolding completion_effect load_settle
show a m = (completion_effect (λ n. "") (load_settle a m)).state

-- The answer to the reload, and the `finally` of `handleConfirmRollback`.
unfoldable pub reload : Reply Answer → Watch → Watch
unfolding show
reload a s =
    if ltb 0 s.reloading
    then record s {
      monitor = record (show a s.monitor) { is_rolling_back = false };
      reloading = s.reloading - 1;
    }
    else s

unfoldable pub step : Watch → Event → Watch
unfolding open_dialog confirm cancel answer reload
step s (polled a) = record s { monitor = show a s.monitor }
step s opens = open_dialog s
step s (checks b) = if is_shown s.monitor then record s { acknowledged = b } else s
step s confirms = confirm s
step s cancels = cancel s
step s (replies r) = answer r s
step s (reloaded a) = reload a s

unfoldable pub steps : Watch → List Event → Watch
unfolding step
steps s [] = s
steps s (e ∷ es) = steps (step s e) es
