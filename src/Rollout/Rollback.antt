-- ===== src/Rollout/Rollback.antt =====
-- The emergency rollback of the monitor, and what it shows of a rollout that was rolled back.
use ota_robot_system.Base.{
  ℕ, ◌≡◌, ◌*◌, max, refl, String, Bool, true, false, Option, none, some, [], ◌∷◌, length, leb,
  if◌then◌else◌, concat, Out, toast, success, error, default_duration,
}
use ota_robot_system.Types.{Deployment, pending, running, completed, failed, rolled_back}
use ota_robot_system.Types.Telemetry.{Thrown, get_error_message}
use ota_robot_system.Types.Reply.{Reply, resolved, rejected}
use ota_robot_system.Rollout.Progress.{or_number}
use ota_robot_system.Rollout.{Monitor, Answer, load_settle}

-- `handleOpenRollbackModal`.
unfoldable pub open_rollback_modal : Monitor → Monitor
open_rollback_modal s = record s { is_rollback_modal_open = true }

-- `handleConfirmRollback` up to the call.
unfoldable pub rollback_start : Monitor → Monitor
rollback_start s = record s { is_rolling_back = true }

total_of : Option Deployment → ℕ
total_of none = 0
total_of (some d) = d.total_devices

-- `deployment?.total_devices || devices.length`.
unfoldable pub affected_units : Monitor → ℕ
unfolding total_of or_number
affected_units s = or_number (total_of s.deployment) (length s.devices)

-- The rest of `handleConfirmRollback`. After a good answer the rollout is loaded again: `answer`
-- is the reply to that load. The number in the text is the one at the start of the handler.
unfoldable pub rollback_settle :
    (ℕ → String) → ℕ → Reply Answer → Reply (Unit {0}) → Monitor → Out Monitor
rollback_settle decimal units answer (resolved u) s = record {
  state =
      record (load_settle answer (record s {
        is_rollback_modal_open = false;
        rollback_msg = some "Rollback command dispatched to all fleet units!";
      })) { is_rolling_back = false };
  effects =
      toast "Emergency Rollback Dispatched"
        (concat "MQTT emergency rollback signal transmitted to all "
          (concat (decimal units) " units"))
        success default_duration
      ∷ [];
}
rollback_settle decimal units answer (rejected e) s = record {
  state = record s { is_rolling_back = false };
  effects =
      toast "Rollback Failed" (get_error_message e "Unknown error") error default_duration ∷ [];
}

-- `deployment.status === "rolled_back"`.
abbrev pub is_rolled_back : Deployment → Bool
is_rolled_back d = elim d.status [
  | pending ↦ false
  | running ↦ false
  | completed ↦ false
  | failed ↦ false
  | rolled_back ↦ true
]

-- The heading of the banner: the failures, as a part of the robots, reach the threshold.
unfoldable pub banner_heading : Deployment → String
banner_heading d =
    if leb (d.rollback_threshold.num * max 1 d.total_devices)
      (d.failure_count * d.rollback_threshold.den)
    then "Automated Safety Rollback Triggered"
    else "Manual Emergency Rollback Dispatched"

-- The banner that is shown of a rollout, if any.
unfoldable pub banner : Deployment → Option String
banner d = if is_rolled_back d then some (banner_heading d) else none

-- Either way the rollback ends: the button is free again and one notification is shown. A refusal
-- leaves the question open and everything else as it was, and gives its message; a good answer
-- closes the question, and then shows the reloaded rollout, or the old one with a warning.
pub rollback_settle-rollback_start :
    (decimal : ℕ → String) (s : Monitor) (a : Answer) (e : Thrown)
    → let n = affected_units s in
      let go = rollback_start (open_rollback_modal s) in
      let bad = rollback_settle decimal n (resolved a) (rejected e) go in
      let good = rollback_settle decimal n (resolved a) (resolved tt) go in
      let stale = rollback_settle decimal n (rejected e) (resolved tt) go in
      ((bad.state ≡ record s { is_rollback_modal_open = true; is_rolling_back = false })
        × (bad.effects
            ≡ toast "Rollback Failed" (get_error_message e "Unknown error") error default_duration
              ∷ []))
      × ((good.state.is_rollback_modal_open ≡ false)
          × (good.state.is_rolling_back ≡ false)
          × (good.state.deployment ≡ some a.deployment)
          × (length good.effects ≡ 1))
      × ((stale.state.is_rollback_modal_open ≡ false)
          × (stale.state.is_rolling_back ≡ false)
          × (stale.state.deployment ≡ s.deployment)
          × (stale.state.load_error
              ≡ some "Live rollout telemetry is unavailable. Displayed progress may be stale."))
unfolding rollback_settle rollback_start open_rollback_modal load_settle
rollback_settle-rollback_start decimal s a e =
    ((refl, refl), (refl, refl, refl, refl), (refl, refl, refl, refl))
