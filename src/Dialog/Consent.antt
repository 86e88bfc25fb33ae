-- ===== src/Dialog/Consent.antt =====
-- Nothing risky is asked of the page without consent.
use ota_robot_system.Base.{
  ◌≡◌, ◌↔◌, ◌∙◌, refl, Bool, true, false, not, ◌&&◌, ◌||◌, List, [], ◌∷◌, ◌++◌, All, Bool-cases,
  inl, inr, arith, Effect, toast, push, replace, open_window, alert, callback, ◌==◌, string_eq, any,
}
use ota_robot_system.Dialog.{
  Risk, Event, sets_open, sets_busy, checks, confirms, cancels, opened, shown, handle_confirm, step,
  run,
}

-- The box is not ticked.
abbrev pub GivesNoConsent : Event → Type 0
GivesNoConsent (sets_open b) = Unit
GivesNoConsent (sets_busy b) = Unit
GivesNoConsent (checks b) = b ≡ false
GivesNoConsent confirms = Unit
GivesNoConsent cancels = Unit

-- Whether the page is asked to go on.
abbrev pub is_confirmation : Effect → Bool
is_confirmation (callback name) = name == "onConfirm"
is_confirmation (toast title message kind duration) = false
is_confirmation (push url) = false
is_confirmation (replace url) = false
is_confirmation (open_window url) = false
is_confirmation (alert message) = false

step-acknowledged :
    (s : Risk) (e : Event)
    → GivesNoConsent e
    → s.acknowledged ≡ false
    → ((step s e).state.acknowledged ≡ false) × (any is_confirmation (step s e).effects ≡ false)
unfolding step opened handle_confirm
step-acknowledged s (sets_open b) g h = elim (Bool-cases (b && not s.is_open)) [
  | inl e ↦ rw e (refl, refl)
  | inr e ↦ rw e (h, refl)
]
step-acknowledged s (sets_busy b) g h = (h, refl)
step-acknowledged s (checks b) g h = elim (Bool-cases (shown s)) [
  | inl e ↦ rw e (g, refl)
  | inr e ↦ rw e (h, refl)
]
step-acknowledged s confirms g h = elim (Bool-cases (shown s)) [
  | inl e ↦ rw (e, h) (refl, refl)
  | inr e ↦ rw e (h, refl)
]
step-acknowledged s cancels g h = elim (Bool-cases (shown s && not s.is_busy)) [
  | inl e ↦ rw e (h, refl)
  | inr e ↦ rw e (h, refl)
]

any-append : (p : Effect → Bool) (xs ys : List Effect) → any p (xs ++ ys) ≡ (any p xs || any p ys)
any-append p [] ys = refl
any-append p (x ∷ xs) ys = ground (arith, any-append p xs ys)

run-acknowledged :
    (es : List Event) (s : Risk)
    → All GivesNoConsent es
    → s.acknowledged ≡ false
    → any is_confirmation (run s es) ≡ false
unfolding run
run-acknowledged [] s g h = refl
run-acknowledged (e ∷ es) s g h =
    let (k, n) = step-acknowledged s e g.0 h in
    any-append is_confirmation (step s e).effects (run (step s e).state es)
    ∙ rw n (run-acknowledged es (step s e).state g.1 k)

-- Once a risk assessment has been opened, whatever was agreed to before, the page is asked to go on
-- only after the box was ticked.
pub run-sets_open :
    (s : Risk) (es : List Event)
    → s.is_open ≡ false
    → All GivesNoConsent es
    → any is_confirmation (run s (sets_open true ∷ es)) ≡ false
unfolding run step opened
run-sets_open s es h g =
    rw h (run-acknowledged es (record s { acknowledged = false; is_open = true }) g refl)

-- A confirmation asks the page to go on at once exactly if the dialog is shown, the box is ticked
-- and no call is going on; otherwise nothing is asked.
pub confirms_iff :
    (s : Risk)
    → (any is_confirmation (step s confirms).effects ≡ true)
      ↔ ((shown s ≡ true) × (s.acknowledged ≡ true) × (s.is_busy ≡ false))
unfolding step handle_confirm
confirms_iff s = (λ h. ground arith, λ h. ground arith)
