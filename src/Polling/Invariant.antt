-- ===== src/Polling/Invariant.antt =====
-- Polls never overlap and never stall.
use ota_robot_system.Base.{
  ℕ, ◌≤◌, ◌≡◌, refl, ◌⊎◌, inl, inr, Bool, true, false, Option, none, some, List, [], ◌∷◌, length,
  ◌==◌, nat_eq, arith, Bool-cases,
}
use ota_robot_system.Polling.{Poll, Event, fires, visibility, settles, cleanup, step, start, steps}

-- The three situations: waiting for the one timer, in the callback, or cleaned up and at rest.
abbrev pub Situation : Bool → Bool → Option ℕ → List ℕ → ℕ → Type 0
Situation cancelled true timer pending in_flight = (pending ≡ []) × (in_flight ≡ 1)
Situation true false timer pending in_flight = (pending ≡ []) × (in_flight ≡ 0)
Situation false false none pending in_flight = ⊥
Situation false false (some t) pending in_flight = (pending ≡ t ∷ []) × (in_flight ≡ 0)

abbrev pub IsSound : Poll → Type 0
IsSound p = Situation p.cancelled p.running p.timer p.pending p.in_flight

abbrev pub poll : Bool → Bool → Option ℕ → List ℕ → ℕ → Bool → ℕ → ℕ → Poll
poll c r t ps n v i s = record {
  cancelled = c;
  running = r;
  timer = t;
  pending = ps;
  next_id = n;
  visible = v;
  in_flight = i;
  started = s;
}

step-poll :
    (e : Event) (c r : Bool) (t : Option ℕ) (ps : List ℕ) (n : ℕ) (v : Bool) (i s : ℕ)
    → Situation c r t ps i
    → IsSound (step (poll c r t ps n v i s) e)
unfolding step
step-poll (fires u) c true t ps n v i s h = rw (h.0) (refl, h.1)
step-poll (fires u) true false t ps n v i s h = rw (h.0) (refl, h.1)
step-poll (fires u) false false none ps n v i s h = absurd h
step-poll (fires u) false false (some x) ps n true i s h =
    rw (h.0)
      (elim (Bool-cases (x == u)) [ inl q ↦ rw q (refl, omega arith) | inr q ↦ rw q (refl, h.1) ])
step-poll (fires u) false false (some x) ps n false i s h =
    rw (h.0) (elim (Bool-cases (x == u)) [ inl q ↦ rw q (refl, h.1) | inr q ↦ rw q (refl, h.1) ])
step-poll (visibility w) true true t ps n v i s h = h
step-poll (visibility w) true false t ps n v i s h = h
step-poll (visibility true) false true t ps n v i s h = h
step-poll (visibility false) false true t ps n v i s h = h
step-poll (visibility w) false false none ps n v i s h = absurd h
step-poll (visibility true) false false (some x) ps n v i s h = rw (h.0) (ground arith, omega arith)
step-poll (visibility false) false false (some x) ps n v i s h = h
step-poll settles true true t ps n v i s h = (h.0, omega arith)
step-poll settles false true t ps n v i s h = (cc (h.0), omega arith)
step-poll settles c false t ps n v i s h = h
step-poll cleanup true r t ps n v i s h = h
step-poll cleanup false true none ps n v i s h = h
step-poll cleanup false true (some x) ps n v i s h = rw (h.0) (refl, h.1)
step-poll cleanup false false none ps n v i s h = absurd h
step-poll cleanup false false (some x) ps n v i s h = rw (h.0) (ground arith, h.1)

-- Every event keeps the poll in one of the situations.
pub step-IsSound : (p : Poll) (e : Event) → IsSound p → IsSound (step p e)
step-IsSound p e h =
    step-poll e p.cancelled p.running p.timer p.pending p.next_id p.visible p.in_flight p.started h

pub steps-IsSound : (es : List Event) (p : Poll) → IsSound p → IsSound (steps p es)
unfolding steps
steps-IsSound [] p h = h
steps-IsSound (e ∷ es) p h = steps-IsSound es (step p e) (step-IsSound p e h)

pub start-IsSound : (v : Bool) → IsSound (start v)
unfolding start
start-IsSound v = (refl, refl)

Situation-bounds :
    (c r : Bool) (t : Option ℕ) (ps : List ℕ) (i : ℕ)
    → Situation c r t ps i
    → (i ≤ 1) × (length ps ≤ 1) × (c ≡ false → (r ≡ true) ⊎ (length ps ≡ 1))
Situation-bounds c true t ps i h = rw (h.0) (omega arith, omega arith, λ e. inl refl)
Situation-bounds true false t ps i h = rw (h.0) (omega arith, omega arith, λ e. cc)
Situation-bounds false false none ps i h = absurd h
Situation-bounds false false (some x) ps i h = rw (h.0) (omega arith, omega arith, λ e. inr refl)

-- Whatever the timers, the page and the callback do, at most one call of the callback is in
-- flight and at most one timer is set; and until the clean-up the poll is in its callback or
-- has a timer set, so it does not stall.
pub steps-start :
    (v : Bool) (es : List Event)
    → ((steps (start v) es).in_flight ≤ 1)
      × (length (steps (start v) es).pending ≤ 1)
      × ((steps (start v) es).cancelled ≡ false
          → ((steps (start v) es).running ≡ true) ⊎ (length (steps (start v) es).pending ≡ 1))
steps-start v es = Situation-bounds _ _ _ _ _ (steps-IsSound es (start v) (start-IsSound v))
