-- ===== src/Rollout/Emergency/Once.antt =====
-- At most one rollback is on its way.
use ota_robot_system.Base.{◌+◌, ◌≡◌, true, false, List, [], ◌∷◌, arith}
use ota_robot_system.Types.Reply.{Reply, resolved, rejected}
use ota_robot_system.Rollout.{Monitor}
use ota_robot_system.Rollout.Rollback.{open_rollback_modal, rollback_start}
use ota_robot_system.Rollout.Emergency.{
  Watch, begin, Event, polled, opens, checks, confirms, cancels, replies, reloaded, open_dialog,
  confirm, cancel, answer, reload, step, steps,
}
use ota_robot_system.Rollout.Emergency.Guards.{show-same}

-- The button says that a rollback is going on exactly while a call or a reload is on its way.
pub record IsSingle (s : Watch) : Type 0 where
  pub busy : s.monitor.is_rolling_back ≡ true → s.calling + s.reloading ≡ 1
  pub idle : s.monitor.is_rolling_back ≡ false → s.calling + s.reloading ≡ 0

answer-IsSingle : (r : Reply (Unit {0})) (s : Watch) → IsSingle s → IsSingle (answer r s)
unfolding answer
answer-IsSingle (resolved u) s h = ground arith
answer-IsSingle (rejected e) s h = ground arith

step-IsSingle : (s : Watch) (e : Event) → IsSingle s → IsSingle (step s e)
unfolding step open_dialog open_rollback_modal confirm rollback_start cancel reload
step-IsSingle s (polled a) h = ground (arith, show-same a s.monitor)
step-IsSingle s opens h = ground arith
step-IsSingle s (checks b) h = ground arith
step-IsSingle s confirms h = ground arith
step-IsSingle s cancels h = ground arith
step-IsSingle s (replies r) h = answer-IsSingle r s h
step-IsSingle s (reloaded a) h = ground arith

steps-IsSingle : (es : List Event) (s : Watch) → IsSingle s → IsSingle (steps s es)
unfolding steps
steps-IsSingle [] s h = h
steps-IsSingle (e ∷ es) s h = steps-IsSingle es (step s e) (step-IsSingle s e h)

-- From a monitor that is not rolling back, under any polls, clicks and answers: at most one call
-- of the rollback or reload after it is on its way, and the button is locked exactly meanwhile.
pub steps-begin-IsSingle :
    (m : Monitor) (es : List Event) → m.is_rolling_back ≡ false → IsSingle (steps (begin m) es)
steps-begin-IsSingle m es h =
    steps-IsSingle es (begin m) (record { busy = λ b. cc; idle = λ i. omega arith })
