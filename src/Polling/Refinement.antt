-- ===== src/Polling/Refinement.antt =====
-- What a caller sees of the poll: a cycle without timers, which the closure implements.
use ota_robot_system.Base.{
  ℕ, ◌+◌, ◌≡◌, refl, sym, ◌∙◌, ap, Bool, true, false, Option, none, some, List, [], ◌∷◌, ◌++◌,
  includes, ◌==◌, nat_eq, Bool-cases, inl, inr, if◌then◌else◌,
}
use ota_robot_system.Polling.{Poll, Event, fires, visibility, settles, cleanup, step, start, steps}
use ota_robot_system.Polling.Invariant.{Situation, IsSound, poll, step-IsSound, start-IsSound}

-- The poll waits for its turn, or its callback runs; after the clean-up a callback may still run.
pub data Phase : Type 0 where
  resting calling ending ended : Phase

pub record Cycle : Type 0 where
  pub phase : Phase
  pub visible : Bool
  -- calls of the callback that were made
  pub calls : ℕ

-- The turn comes, the page is shown or hidden, the callback returns, the owner stops the poll.
pub data Signal : Type 0 where
  turn : Signal
  shows : Bool → Signal
  returns stops : Signal

-- A resting cycle calls if the page is visible.
call_if : Bool → ℕ → Cycle
call_if true n = record { phase = calling; visible = true; calls = n + 1 }
call_if false n = record { phase = resting; visible = false; calls = n }

next : Phase → Bool → ℕ → Signal → Cycle
unfolding call_if
next resting v n turn = call_if v n
next resting v n (shows w) = call_if w n
next resting v n stops = record { phase = ended; visible = v; calls = n }
next calling v n returns = record { phase = resting; visible = v; calls = n }
next calling v n stops = record { phase = ending; visible = v; calls = n }
next ending v n returns = record { phase = ended; visible = v; calls = n }
next p v n (shows w) = record { phase = p; visible = w; calls = n }
next p v n _ = record { phase = p; visible = v; calls = n }

unfoldable pub cycles : Cycle → List Signal → Cycle
unfolding next
cycles c [] = c
cycles c (s ∷ ss) = cycles (next c.phase c.visible c.calls s) ss

-- A new cycle, on a page that is visible or not.
abbrev pub cycle : Bool → Cycle
cycle v = record { phase = resting; visible = v; calls = 0 }

phase_of : Bool → Bool → Phase
phase_of false false = resting
phase_of false true = calling
phase_of true true = ending
phase_of true false = ended

-- What is seen of a poll.
pub view : Poll → Cycle
unfolding phase_of
view p = record { phase = phase_of p.cancelled p.running; visible = p.visible; calls = p.started }

-- The turn comes with a timer that is set.
signals_of : Poll → Event → List Signal
signals_of p (fires t) = if includes p.pending t then turn ∷ [] else []
signals_of p (visibility v) = shows v ∷ []
signals_of p settles = returns ∷ []
signals_of p cleanup = stops ∷ []

pub signals : Poll → List Event → List Signal
unfolding signals_of
signals p [] = []
signals p (e ∷ es) = signals_of p e ++ signals (step p e) es

step-poll-view :
    (e : Event) (c r : Bool) (t : Option ℕ) (ps : List ℕ) (n : ℕ) (v : Bool) (i s : ℕ)
    → Situation c r t ps i
    → view (step (poll c r t ps n v i s) e)
      ≡ cycles (view (poll c r t ps n v i s)) (signals_of (poll c r t ps n v i s) e)
unfolding step view signals_of cycles
step-poll-view (fires u) c true t ps n v i s h = rw (h.0) refl
step-poll-view (fires u) true false t ps n v i s h = rw (h.0) refl
step-poll-view (fires u) false false none ps n v i s h = absurd h
step-poll-view (fires u) false false (some x) ps n true i s h =
    rw (h.0) (elim (Bool-cases (x == u)) [ inl q ↦ rw q refl | inr q ↦ rw q refl ])
step-poll-view (fires u) false false (some x) ps n false i s h =
    rw (h.0) (elim (Bool-cases (x == u)) [ inl q ↦ rw q refl | inr q ↦ rw q refl ])
step-poll-view (visibility w) true true t ps n v i s h = refl
step-poll-view (visibility w) true false t ps n v i s h = refl
step-poll-view (visibility true) false true t ps n v i s h = refl
step-poll-view (visibility false) false true t ps n v i s h = refl
step-poll-view (visibility w) false false none ps n v i s h = absurd h
step-poll-view (visibility true) false false (some x) ps n v i s h = refl
step-poll-view (visibility false) false false (some x) ps n v i s h = refl
step-poll-view settles true true t ps n v i s h = refl
step-poll-view settles false true t ps n v i s h = refl
step-poll-view settles true false t ps n v i s h = refl
step-poll-view settles false false t ps n v i s h = refl
step-poll-view cleanup true true t ps n v i s h = refl
step-poll-view cleanup true false t ps n v i s h = refl
step-poll-view cleanup false true none ps n v i s h = refl
step-poll-view cleanup false true (some x) ps n v i s h = refl
step-poll-view cleanup false false none ps n v i s h = absurd h
step-poll-view cleanup false false (some x) ps n v i s h = refl

cycles-append : (c : Cycle) (ss ts : List Signal) → cycles c (ss ++ ts) ≡ cycles (cycles c ss) ts
unfolding cycles
cycles-append c [] ts = refl
cycles-append c (s ∷ ss) ts = cycles-append (next c.phase c.visible c.calls s) ss ts

view-steps :
    (es : List Event) (p : Poll) → IsSound p → view (steps p es) ≡ cycles (view p) (signals p es)
unfolding steps signals cycles
view-steps [] p h = refl
view-steps (e ∷ es) p h =
    let one : view (step p e) ≡ cycles (view p) (signals_of p e) =
      step-poll-view e p.cancelled p.running p.timer p.pending p.next_id p.visible p.in_flight
        p.started h in
    view-steps es (step p e) (step-IsSound p e h)
    ∙ ap (λ c. cycles c (signals (step p e) es)) one
    ∙ sym (cycles-append (view p) (signals_of p e) (signals (step p e) es))

-- Under any events the poll refines the cycle without timers: what is seen of it, whether it
-- rests, calls or has ended and how many calls were made, is the cycle of the signals that the
-- events give, where a timer that is set gives its turn and any other timer gives nothing.
pub view-steps-start :
    (v : Bool) (es : List Event)
    → view (steps (start v) es) ≡ cycles (cycle v) (signals (start v) es)
unfolding start view
view-steps-start v es = view-steps es (start v) (start-IsSound v)
