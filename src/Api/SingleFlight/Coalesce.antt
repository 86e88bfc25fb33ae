-- ===== src/Api/SingleFlight/Coalesce.antt =====
-- Concurrent callers share one refresh.
use mathlib.Core.List.{append-nil, append_assoc}
use ota_robot_system.Base.{
  ℕ, suc, ◌≤◌, ◌≡◌, refl, ap, ◌∙◌, Bool, not, Option, none, some, List, [], ◌∷◌, ◌++◌, map, filter,
  length, All, nat_eq, arith,
}
use ota_robot_system.Api.SingleFlight.{
  RefreshState, idle, Event, enter, settle, waits_on, answers, step, run,
}

-- The request in flight is that of the active promise, and every waiting caller waits for it.
abbrev pub Shares : Option ℕ → List ℕ → List (ℕ × ℕ) → Type 0
Shares none in_flight waiting = (in_flight ≡ []) × (waiting ≡ [])
Shares (some p) in_flight waiting = (in_flight ≡ p ∷ []) × All (λ w. w.1 ≡ p) waiting

abbrev pub IsShared : RefreshState → Type 0
IsShared s = Shares s.active s.in_flight s.waiting

pub All-snoc :
    (p c : ℕ) (ws : List (ℕ × ℕ)) → All (λ w. w.1 ≡ p) ws → All (λ w. w.1 ≡ p) (ws ++ (c, p) ∷ [])
All-snoc p c [] h = (refl, tt)
All-snoc p c (w ∷ ws) h = (h.0, All-snoc p c ws h.1)

pub filter-waits_on :
    (p : ℕ) (ws : List (ℕ × ℕ)) → All (λ w. w.1 ≡ p) ws → filter (waits_on p) ws ≡ ws
unfolding waits_on
filter-waits_on p [] h = refl
filter-waits_on p (w ∷ ws) h = ground (arith, h.0, filter-waits_on p ws h.1)

pub filter-not-waits_on :
    (p : ℕ) (ws : List (ℕ × ℕ)) → All (λ w. w.1 ≡ p) ws → filter (λ w. not (waits_on p w)) ws ≡ []
unfolding waits_on
filter-not-waits_on p [] h = refl
filter-not-waits_on p (w ∷ ws) h = ground (arith, h.0, filter-not-waits_on p ws h.1)

unfoldable pub state : Option ℕ → ℕ → List ℕ → List (ℕ × ℕ) → List (ℕ × Bool) → RefreshState
state a n f w d = record { active = a; issued = n; in_flight = f; waiting = w; answered = d }

step-state :
    (e : Event) (a : Option ℕ) (n : ℕ) (f : List ℕ) (w : List (ℕ × ℕ)) (d : List (ℕ × Bool))
    → Shares a f w
    → IsShared (step (state a n f w d) e)
unfolding step state
step-state (enter c) none n f w d h = rw (h.0, h.1) (refl, (refl, tt))
step-state (enter c) (some p) n f w d h = (h.0, All-snoc p c w h.1)
step-state (settle good) none n f w d h = rw (h.0) h
step-state (settle good) (some p) n f w d h = rw (h.0) (refl, filter-not-waits_on p w h.1)

-- Every event keeps it so.
pub step-IsShared : (s : RefreshState) (e : Event) → IsShared s → IsShared (step s e)
unfolding state
step-IsShared s e h = step-state e s.active s.issued s.in_flight s.waiting s.answered h

run-IsShared : (es : List Event) (s : RefreshState) → IsShared s → IsShared (run s es)
unfolding run
run-IsShared [] s h = h
run-IsShared (e ∷ es) s h = run-IsShared es (step s e) (step-IsShared s e h)

Shares-bounds :
    (a : Option ℕ) (f : List ℕ) (w : List (ℕ × ℕ))
    → Shares a f w
    → (length f ≤ 1) × (f ≡ [] → w ≡ [])
Shares-bounds none f w h = rw (h.0) (omega arith, λ e. h.1)
Shares-bounds (some p) f w h = rw (h.0) (omega arith, λ e. cc)

-- Whatever callers do and whenever answers arrive, at most one refresh is in flight, and when
-- none is, no caller is left waiting.
pub run-single_flight :
    (es : List Event)
    → (length (run idle es).in_flight ≤ 1)
      × ((run idle es).in_flight ≡ [] → (run idle es).waiting ≡ [])
run-single_flight es = Shares-bounds _ _ _ (run-IsShared es idle (refl, refl))

run-append : (es fs : List Event) (s : RefreshState) → run s (es ++ fs) ≡ run (run s es) fs
unfolding run
run-append [] fs s = refl
run-append (e ∷ es) fs s = run-append es fs (step s e)

run-map-enter :
    (cs : List ℕ) (p n : ℕ) (w : List (ℕ × ℕ)) (d : List (ℕ × Bool))
    → run (state (some p) n (p ∷ []) w d) (map enter cs)
      ≡ state (some p) n (p ∷ []) (w ++ map (λ c. (c, p)) cs) d
unfolding run step state
run-map-enter [] p n w d = rw append-nil
run-map-enter (c ∷ cs) p n w d = simp (run-map-enter cs p n (w ++ (c, p) ∷ []) d, append_assoc)

All-map : (p : ℕ) (cs : List ℕ) → All {A = ℕ × ℕ} (λ w. w.1 ≡ p) (map (λ c. (c, p)) cs)
All-map p [] = tt
All-map p (c ∷ cs) = (refl, All-map p cs)

map-answers :
    (good : Bool) (p : ℕ) (cs : List ℕ)
    → answers good p (map (λ c. (c, p)) cs) ≡ map (λ c. (c, good)) cs
unfolding answers waits_on
map-answers good p [] = refl
map-answers good p (c ∷ cs) = ground (arith, map-answers good p cs)

settle-state :
    (n p : ℕ) (good : Bool) (cs : List ℕ) (d : List (ℕ × Bool))
    → step (state (some p) n (p ∷ []) (map (λ c. (c, p)) cs) d) (settle good)
      ≡ state none n [] [] (d ++ map (λ k. (k, good)) cs)
unfolding step state
settle-state n p good cs d =
    rw (map-answers good p cs, filter-not-waits_on p (map (λ c. (c, p)) cs) (All-map p cs))

run-state :
    (n : ℕ) (c : ℕ) (cs : List ℕ) (good : Bool) (d : List (ℕ × Bool))
    → run (state none n [] [] d) (map enter (c ∷ cs) ++ settle good ∷ [])
      ≡ state none (suc n) [] [] (d ++ map (λ k. (k, good)) (c ∷ cs))
unfolding run
run-state n c cs good d =
    run-append (map enter cs) (settle good ∷ []) (step (state none n [] [] d) (enter c))
    ∙ ap (λ t. step t (settle good)) (first_entry ∙ run-map-enter cs n (suc n) ((c, n) ∷ []) d)
    ∙ settle-state (suc n) n good (c ∷ cs) d
  where
    first_entry :
        run (step (state none n [] [] d) (enter c)) (map enter cs)
        ≡ run (state (some n) (suc n) (n ∷ []) ((c, n) ∷ []) d) (map enter cs)
    first_entry = unfold step state in refl

Shares-none :
    (a : Option ℕ) (f : List ℕ) (w : List (ℕ × ℕ)) → Shares a f w → a ≡ none → (f ≡ []) × (w ≡ [])
Shares-none none f w h e = h
Shares-none (some p) f w h e = cc

-- All callers that enter while one refresh is in flight cost one request together, and its
-- answer is the answer of each of them; nobody else is answered.
pub run-enter-settle :
    (s : RefreshState) (c : ℕ) (cs : List ℕ) (good : Bool)
    → IsShared s
    → s.active ≡ none
    → run s (map enter (c ∷ cs) ++ settle good ∷ []) ≡ record {
      active = none;
      issued = suc s.issued;
      in_flight = [];
      waiting = [];
      answered = s.answered ++ map (λ k. (k, good)) (c ∷ cs);
    }
unfolding state
run-enter-settle s c cs good h a =
    let (f, w) = Shares-none s.active s.in_flight s.waiting h a in
    let same : s ≡ state none s.issued [] [] s.answered = λ i. record {
      active = a i;
      issued = s.issued;
      in_flight = f i;
      waiting = w i;
      answered = s.answered;
    } in
    ap (λ t. run t (map enter (c ∷ cs) ++ settle good ∷ [])) same
    ∙ run-state s.issued c cs good s.answered
