-- ===== src/Toasts/Timers.antt =====
-- No notification that should run out stays for ever.
use ota_robot_system.Base.{
  ℕ, ◌≡◌, refl, ◌∙◌, zero, suc, String, Bool, true, false, not, List, [], ◌∷◌, ◌++◌, take, filter,
  All, ltb, includes, includes-append, string_eq, ◌==◌, arith, eq_iff, Bool-cases, inl, inr,
  if◌then◌else◌,
}
use ota_robot_system.Toasts.{
  ToastItem, Toasts, no_toasts, erase_first, Event, show, close, expire, step, steps,
}

-- A notification that is to run out has a timer.
abbrev pub IsTimed : List String → ToastItem → Type 0
IsTimed timers t = ltb 0 t.duration_ms ≡ true → includes timers t.id ≡ true

abbrev pub AllTimed : Toasts → Type 0
AllTimed s = All (IsTimed s.timers) s.items

includes-erase_first :
    (ts : List String) (x y : String)
    → (y == x) ≡ false
    → includes (erase_first x ts) y ≡ includes ts y
unfolding erase_first
includes-erase_first [] x y h = refl
includes-erase_first (t ∷ ts) x y h =
    ground (arith, includes-erase_first ts x y, eq_iff t x, eq_iff t y, eq_iff y x)

All-take :
    (n : ℕ) (ts : List String) (xs : List ToastItem)
    → All (IsTimed ts) xs
    → All (IsTimed ts) (take n xs)
All-take zero ts xs h = tt
All-take (suc n) ts [] h = tt
All-take (suc n) ts (x ∷ xs) h = (h.0, All-take n ts xs h.1)

All-IsTimed_more :
    (ts : List String) (x : String) (xs : List ToastItem)
    → All (IsTimed ts) xs
    → All (IsTimed (ts ++ x ∷ [])) xs
All-IsTimed_more ts x [] h = tt
All-IsTimed_more ts x (t ∷ xs) h =
    (λ d. ground (arith, h.0 d, includes-append ts x t.id), All-IsTimed_more ts x xs h.1)

All-closed :
    (ts : List String) (x : String) (xs : List ToastItem)
    → All (IsTimed ts) xs
    → All (IsTimed ts) (filter (λ t. not (t.id == x)) xs)
All-closed ts x [] h = tt
All-closed ts x (t ∷ xs) h = elim (Bool-cases (t.id == x)) [
  | inl e ↦ rw e (All-closed ts x xs h.1)
  | inr e ↦ rw e (h.0, All-closed ts x xs h.1)
]

All-expired :
    (ts : List String) (x : String) (xs : List ToastItem)
    → All (IsTimed ts) xs
    → All (IsTimed (erase_first x ts)) (filter (λ t. not (t.id == x)) xs)
All-expired ts x [] h = tt
All-expired ts x (t ∷ xs) h = elim (Bool-cases (t.id == x)) [
  | inl e ↦ rw e (All-expired ts x xs h.1)
  | inr e ↦ rw e (λ d. includes-erase_first ts x t.id e ∙ h.0 d, All-expired ts x xs h.1)
]

All-shown :
    (b : Bool) (ts : List String) (t : ToastItem) (xs : List ToastItem)
    → ltb 0 t.duration_ms ≡ b
    → All (IsTimed ts) xs
    → All (IsTimed (if b then ts ++ t.id ∷ [] else ts)) (take 5 (t ∷ xs))
All-shown true ts t xs e h = (
  λ d. ground (arith, includes-append ts t.id t.id, eq_iff t.id t.id),
  All-take 4 (ts ++ t.id ∷ []) xs (All-IsTimed_more ts t.id xs h),
)
All-shown false ts t xs e h = (λ d. cc, All-take 4 ts xs h)

step-AllTimed : (s : Toasts) (e : Event) → AllTimed s → AllTimed (step s e)
unfolding step
step-AllTimed s (show t) h = All-shown (ltb 0 t.duration_ms) s.timers t s.items refl h
step-AllTimed s (close id) h = All-closed s.timers id s.items h
step-AllTimed s (expire id) h = elim (Bool-cases (includes s.timers id)) [
  | inl e ↦ rw e (All-expired s.timers id s.items h)
  | inr e ↦ rw e h
]

steps-AllTimed : (es : List Event) (s : Toasts) → AllTimed s → AllTimed (steps s es)
unfolding steps
steps-AllTimed [] s h = h
steps-AllTimed (e ∷ es) s h = steps-AllTimed es (step s e) (step-AllTimed s e h)

-- At any time each notification on the screen that has a duration has a timer that will remove
-- it, also when older ones were pushed out, closed or have run out.
pub steps-no_toasts-AllTimed : (es : List Event) → AllTimed (steps no_toasts es)
steps-no_toasts-AllTimed es = steps-AllTimed es no_toasts tt
