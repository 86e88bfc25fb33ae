-- ===== src/Polling/Cleanup.antt =====
-- When the callback is called, and that the clean-up ends the calls.
use ota_robot_system.Base.{
  ℕ, ◌+◌, ◌≡◌, refl, ◌∙◌, Bool, true, false, Option, none, some, List, [], ◌∷◌, nat_eq, arith,
}
use ota_robot_system.Polling.{Poll, Event, fires, visibility, settles, cleanup, step, steps}
use ota_robot_system.Polling.Invariant.{Situation, IsSound, poll, step-IsSound}

step-cancelled :
    (e : Event) (c r : Bool) (t : Option ℕ) (ps : List ℕ) (n : ℕ) (v : Bool) (i s : ℕ)
    → Situation c r t ps i
    → c ≡ true
    → ((step (poll c r t ps n v i s) e).cancelled ≡ true)
      × ((step (poll c r t ps n v i s) e).started ≡ s)
unfolding step
step-cancelled e false r t ps n v i s h k = cc
step-cancelled (fires u) true true t ps n v i s h k = rw (h.0) (refl, refl)
step-cancelled (fires u) true false t ps n v i s h k = rw (h.0) (refl, refl)
step-cancelled (visibility w) true r t ps n v i s h k = (refl, refl)
step-cancelled settles true true t ps n v i s h k = (refl, refl)
step-cancelled settles true false t ps n v i s h k = (refl, refl)
step-cancelled cleanup true r t ps n v i s h k = (refl, refl)

-- After the clean-up the callback is never called again, whatever happens.
pub started-steps :
    (es : List Event) (p : Poll) → IsSound p → p.cancelled ≡ true → (steps p es).started ≡ p.started
unfolding steps
started-steps [] p h k = refl
started-steps (e ∷ es) p h k =
    let (c, s) =
      step-cancelled e p.cancelled p.running p.timer p.pending p.next_id p.visible p.in_flight
        p.started h k in
    started-steps es (step p e) (step-IsSound p e h) c ∙ s

started-poll :
    (c r : Bool) (t : Option ℕ) (ps : List ℕ) (n : ℕ) (v : Bool) (i s u : ℕ)
    → Situation c r t ps i
    → c ≡ false
    → r ≡ false
    → ((step (poll c r t ps n v i s) (visibility true)).started ≡ s + 1)
      × ((step (poll c r t ps n v i s) (visibility false)).started ≡ s)
      × (ps ≡ u ∷ [] → (step (poll c r t ps n true i s) (fires u)).started ≡ s + 1)
unfolding step
started-poll true r t ps n v i s u h k q = cc
started-poll false true t ps n v i s u h k q = cc
started-poll false false none ps n v i s u h k q = absurd h
started-poll false false (some x) ps n v i s u h k q = (refl, refl, λ e. rw e (ground arith))

-- A poll at rest that is not cleaned up calls the callback once when the page becomes visible,
-- not at all when it is hidden, and once when its timer fires on a visible page.
pub started-step :
    (p : Poll) (t : ℕ)
    → IsSound p
    → p.cancelled ≡ false
    → p.running ≡ false
    → ((step p (visibility true)).started ≡ p.started + 1)
      × ((step p (visibility false)).started ≡ p.started)
      × (p.pending ≡ t ∷ []
          → (step (record p { visible = true }) (fires t)).started ≡ p.started + 1)
started-step p t h k q =
    started-poll p.cancelled p.running p.timer p.pending p.next_id p.visible p.in_flight p.started t
      h k q
