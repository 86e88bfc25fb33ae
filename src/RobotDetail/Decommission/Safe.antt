-- ===== src/RobotDetail/Decommission/Safe.antt =====
-- Only robots that are shown as not online are removed, one at a time.
use ota_robot_system.Base.{
  ◌≡◌, ◌≤◌, refl, true, false, not, ◌&&◌, Option, none, some, List, [], ◌∷◌, nat_eq, arith, All,
  Bool-cases, inl, inr,
}
use ota_robot_system.Types.{Device, is_online}
use ota_robot_system.Types.Reply.{Reply, resolved, rejected}
use ota_robot_system.RobotDetail.Removal.{delete_settle}
use ota_robot_system.RobotDetail.Decommission.{
  Desk, begin, Event, selects, closes, asks, cancels, confirms, replies, set_confirm_delete,
  confirm, answer, call, offers, step, steps,
}

record IsSafe (s : Desk) : Type 0 where
  offline : All (λ d. is_online d ≡ false) s.asked
  busy : s.dialog.is_deleting ≡ true → s.calling ≡ 1
  idle : s.dialog.is_deleting ≡ false → s.calling ≡ 0

call-IsSafe :
    (o : Option Device) (s : Desk)
    → offers o ≡ true
    → s.dialog.is_deleting ≡ false
    → IsSafe s
    → IsSafe (call o s)
unfolding call offers
call-IsSafe none s o b h = cc
call-IsSafe (some d) s o b h = record {
  offline = (ground (arith, o), h.offline);
  busy = λ e. ground (arith, h.idle b);
  idle = λ e. cc;
}

answer-IsSafe : (d : Device) (r : Reply (Unit {0})) (s : Desk) → IsSafe s → IsSafe (answer d r s)
unfolding answer delete_settle
answer-IsSafe d (resolved u) s h = ground arith
answer-IsSafe d (rejected e) s h = ground arith

step-IsSafe : (s : Desk) (e : Event) → IsSafe s → IsSafe (step s e)
unfolding step set_confirm_delete confirm
step-IsSafe s (selects d) h = record { offline = h.offline; busy = h.busy; idle = h.idle }
step-IsSafe s closes h = record { offline = h.offline; busy = h.busy; idle = h.idle }
step-IsSafe s asks h = ground arith
step-IsSafe s cancels h = ground arith
step-IsSafe s confirms h =
    elim (Bool-cases (offers s.selected && s.dialog.confirm_delete && not s.dialog.is_deleting)) [
      | inl e ↦ rw e (call-IsSafe s.selected s (ground (arith, e)) (ground (arith, e)) h)
      | inr e ↦ rw e h
    ]
step-IsSafe s (replies d r) h = answer-IsSafe d r s h

steps-IsSafe : (es : List Event) (s : Desk) → IsSafe s → IsSafe (steps s es)
unfolding steps
steps-IsSafe [] s h = h
steps-IsSafe (e ∷ es) s h = steps-IsSafe es (step s e) (step-IsSafe s e h)

-- Whatever is clicked and answered on the overview: each removal that was asked for is of a robot
-- that its dialog showed as not online, and at most one call is on its way.
pub steps-begin-IsSafe :
    (es : List Event)
    → All (λ d. is_online d ≡ false) (steps begin es).asked × ((steps begin es).calling ≤ 1)
steps-begin-IsSafe es =
    let h = steps-IsSafe es begin (record { offline = tt; busy = λ e. cc; idle = λ e. refl }) in
    (
      h.offline,
      elim (Bool-cases (steps begin es).dialog.is_deleting) [
        | inl b ↦ omega (arith, h.busy b)
        | inr b ↦ omega (arith, h.idle b)
      ],
    )

-- A removal that ends well closes the dialog, also if the one of another robot was opened since.
pub answer-selects :
    (s : Desk) (d other : Device)
    → (confirm s).calling ≡ 1
    → (step (step (step (confirm s) closes) (selects other)) (replies d (resolved tt))).selected
      ≡ none
unfolding step answer
answer-selects s d other h = ground (arith, h)
