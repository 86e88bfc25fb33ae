-- ===== src/Rollout/Emergency/Final.antt =====
-- A rollout that was rolled back is not rolled back again.
use ota_robot_system.Base.{◌≡◌, ◌∙◌, refl, true, false, some, List, [], ◌∷◌, arith, All}
use ota_robot_system.Types.{Deployment}
use ota_robot_system.Types.Reply.{Reply, resolved, rejected}
use ota_robot_system.Rollout.{Monitor, Answer, load_settle}
use ota_robot_system.Rollout.Rollback.{is_rolled_back}
use ota_robot_system.Rollout.Emergency.{
  Watch, Event, polled, opens, checks, confirms, cancels, replies, reloaded, can_open, show,
  open_dialog, confirm, cancel, answer, reload, step, steps,
}
use ota_robot_system.Rollout.Emergency.Guards.{show-same, show-deployment}

-- The rollout that an answer shows was rolled back; a refusal shows none.
abbrev pub Final : Reply Answer → Type 0
Final (resolved a) = is_rolled_back a.deployment ≡ true
Final (rejected e) = Unit {0}

-- All answers of the control plane show a rollout that was rolled back.
abbrev pub StaysFinal : Event → Type 0
StaysFinal (polled a) = Final a
StaysFinal (reloaded a) = Final a
StaysFinal _ = Unit {0}

-- The dialog is closed and the button is gone.
IsOver : Watch → Type 0
IsOver s = (s.monitor.is_rollback_modal_open ≡ false) × (can_open s.monitor.deployment ≡ false)

load_settle-can_open :
    (a : Reply Answer) (m : Monitor)
    → Final a
    → can_open m.deployment ≡ false
    → can_open (load_settle a m).deployment ≡ false
unfolding load_settle can_open
load_settle-can_open (resolved a) m f h = rw f refl
load_settle-can_open (rejected e) m f h = h

show-can_open :
    (a : Reply Answer) (m : Monitor)
    → Final a
    → can_open m.deployment ≡ false
    → can_open (show a m).deployment ≡ false
show-can_open a m f h = rw (show-deployment a m) (load_settle-can_open a m f h)

answer-IsOver :
    (r : Reply (Unit {0})) (s : Watch)
    → IsOver s
    → IsOver (answer r s) × ((answer r s).requested ≡ s.requested)
unfolding IsOver answer
answer-IsOver (resolved u) s h = ground arith
answer-IsOver (rejected e) s h = ground arith

step-IsOver :
    (s : Watch) (e : Event)
    → StaysFinal e
    → IsOver s
    → IsOver (step s e) × ((step s e).requested ≡ s.requested)
unfolding step IsOver open_dialog confirm cancel reload
step-IsOver s (polled a) f h =
    let (r, o) = show-same a s.monitor in ((o ∙ h.0, show-can_open a s.monitor f h.1), refl)
step-IsOver s opens f h = ground arith
step-IsOver s (checks b) f h = ground arith
step-IsOver s confirms f h = ground arith
step-IsOver s cancels f h = ground arith
step-IsOver s (replies r) f h = answer-IsOver r s h
step-IsOver s (reloaded a) f h =
    let (r, o) = show-same a s.monitor in
    let c = show-can_open a s.monitor f h.1 in ground (arith, o, c)

steps-IsOver :
    (es : List Event) (s : Watch)
    → All StaysFinal es
    → IsOver s
    → (steps s es).requested ≡ s.requested
unfolding steps
steps-IsOver [] s f h = refl
steps-IsOver (e ∷ es) s f h =
    let (k, r) = step-IsOver s e f.0 h in steps-IsOver es (step s e) f.1 k ∙ r

-- Once the monitor shows a rollout that was rolled back and its dialog is closed, no rollback is
-- asked for any more, whatever is clicked and answered, as long as every load that succeeds shows
-- a rollout that was rolled back.
pub steps-rolled_back :
    (s : Watch) (d : Deployment) (es : List Event)
    → s.monitor.is_rollback_modal_open ≡ false
    → s.monitor.deployment ≡ some d
    → is_rolled_back d ≡ true
    → All StaysFinal es
    → (steps s es).requested ≡ s.requested
unfolding IsOver can_open
steps-rolled_back s d es o e h f = steps-IsOver es s f (o, rw e (rw h refl))
