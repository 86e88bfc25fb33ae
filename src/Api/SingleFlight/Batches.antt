-- ===== src/Api/SingleFlight/Batches.antt =====
-- The promise of the shared refresh, without promises: callers are served in batches.
use mathlib.Core.List.{append-nil, map-append}
use ota_robot_system.Base.{
  ℕ, suc, ◌≡◌, ◌≢◌, refl, ap, ◌∙◌, Bool, Option, none, some, List, [], ◌∷◌, ◌++◌, map, nat_eq,
}
use ota_robot_system.Api.SingleFlight.{RefreshState, idle, Event, enter, settle, answers, step, run}
use ota_robot_system.Api.SingleFlight.Coalesce.{
  Shares, All-snoc, filter-waits_on, filter-not-waits_on, state,
}

-- Those who wait, in the order of their coming, those who were answered, and the requests made.
pub record Batch : Type 0 where
  pub callers : List ℕ
  pub served : List (ℕ × Bool)
  pub requests : ℕ

abbrev pub empty : Batch
empty = record { callers = []; served = []; requests = 0 }

-- Only the first caller of a batch makes a request; an answer serves the whole batch.
serve : List ℕ → List (ℕ × Bool) → ℕ → Event → Batch
serve [] d n (enter c) = record { callers = c ∷ []; served = d; requests = suc n }
serve (k ∷ ks) d n (enter c) = record { callers = k ∷ (ks ++ c ∷ []); served = d; requests = n }
serve ks d n (settle good) = record {
  callers = [];
  served = d ++ map (λ k. (k, good)) ks;
  requests = n;
}

unfoldable pub serve_all : Batch → List Event → Batch
unfolding serve
serve_all b [] = b
serve_all b (e ∷ es) = serve_all (serve b.callers b.served b.requests e) es

-- What is seen of the client.
abbrev pub view : RefreshState → Batch
view s = record { callers = map (λ w. w.0) s.waiting; served = s.answered; requests = s.issued }

-- An active promise has somebody who waits.
abbrev IsBusy : Option ℕ → List (ℕ × ℕ) → Type 0
IsBusy none w = Unit {0}
IsBusy (some p) w = w ≢ []

abbrev IsServing : RefreshState → Type 0
IsServing s = Shares s.active s.in_flight s.waiting × IsBusy s.active s.waiting

append-ne-nil : (ws : List (ℕ × ℕ)) (w : ℕ × ℕ) → ws ++ w ∷ [] ≢ []
append-ne-nil [] w e = cc
append-ne-nil (v ∷ ws) w e = cc

map-answers :
    (good : Bool) (ws : List (ℕ × ℕ))
    → map {A = ℕ × ℕ} {B = ℕ × Bool} (λ w. (w.0, good)) ws
      ≡ map (λ k. (k, good)) (map {A = ℕ × ℕ} (λ w. w.0) ws)
map-answers good [] = refl
map-answers good (w ∷ ws) = ap (λ t. (w.0, good) ∷ t) (map-answers good ws)

step-state :
    (e : Event) (a : Option ℕ) (n : ℕ) (f : List ℕ) (w : List (ℕ × ℕ)) (d : List (ℕ × Bool))
    → Shares a f w × IsBusy a w
    → IsServing (step (state a n f w d) e)
      × (view (step (state a n f w d) e) ≡ serve (map (λ v. v.0) w) d n e)
unfolding step state serve answers
step-state (enter c) none n f w d h = rw (h.0.0, h.0.1) (((refl, (refl, tt)), λ e. cc), refl)
step-state (enter c) (some p) n f [] d h = absurd (h.1 refl)
step-state (enter c) (some p) n f (v ∷ w) d h =
    (((h.0.0, All-snoc p c (v ∷ w) h.0.1), λ e. cc), simp map-append)
step-state (settle good) none n f w d h = rw (h.0.0, h.0.1) (((h.0.0, refl), tt), simp append-nil)
step-state (settle good) (some p) n f w d h =
    rw (h.0.0, filter-waits_on p w h.0.1, filter-not-waits_on p w h.0.1, map-answers good w)
      (((refl, refl), tt), refl)

run-state :
    (es : List Event) (s : RefreshState) → IsServing s → view (run s es) ≡ serve_all (view s) es
unfolding run serve_all state
run-state [] s h = refl
run-state (e ∷ es) s h =
    let (kept, one) = step-state e s.active s.issued s.in_flight s.waiting s.answered h in
    run-state es (step s e) kept ∙ ap (λ b. serve_all b es) one

-- Under any interleaving of callers and answers the shared refresh refines the service in batches:
-- who waits, who was answered with what, in which order, and how many requests were made are as
-- if there were no promises.
pub view-run : (es : List Event) → view (run idle es) ≡ serve_all empty es
view-run es = run-state es idle ((refl, refl), tt)
