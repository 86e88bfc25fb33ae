-- ===== src/Dialog/Lifetime.antt =====
-- The focus while a dialog is open (the effect of frontend/src/hooks/useDialogFocus.ts): where it
-- goes when the dialog opens and when it closes. A render of the page that gives the hook another
-- `onClose` cleans the effect up and sets it up again.
use ota_robot_system.Base.{
  ℕ, ◌≡◌, refl, ◌∙◌, Bool, true, false, Option, none, some, List, [], ◌∷◌, if◌then◌else◌, arith,
}

-- `initialFocusRef?.current` and `dialogRef.current`.
pub record Refs : Type 0 where
  pub initial_focus : Option ℕ
  pub dialog : Option ℕ

-- The element with the focus, and of the effect: the element that had it before, and whether its
-- frame is still to come.
pub record Focus : Type 0 where
  pub active_element : ℕ
  pub previous_focus : ℕ
  pub frame : Bool

pub data Event : Type 0 where
  -- the frame comes, the operator moves the focus, the page is rendered with another `onClose`
  frame_comes : Event
  moves_to : ℕ → Event
  renders : Event

-- The effect's set-up, on a page where an element has the focus.
unfoldable pub set_up : ℕ → Focus
set_up active = record { active_element = active; previous_focus = active; frame = true }

focus_on : Option ℕ → Focus → Focus
focus_on none s = s
focus_on (some e) s = record s { active_element = e }

-- `(initialFocusRef?.current ?? dialogRef.current)?.focus()`.
unfoldable pub first_focus : Option ℕ → Option ℕ → Option ℕ
first_focus none dialog = dialog
first_focus (some e) dialog = some e

unfoldable pub run_frame : Refs → Focus → Focus
unfolding focus_on first_focus
run_frame r s =
    if s.frame
    then record (focus_on (first_focus r.initial_focus r.dialog) s) { frame = false }
    else s

-- The clean-up cancels the frame and gives the focus back.
unfoldable pub clean_up : Focus → Focus
clean_up s = record s { active_element = s.previous_focus; frame = false }

unfoldable pub step : Refs → Focus → Event → Focus
unfolding run_frame clean_up set_up
step r s frame_comes = run_frame r s
step r s (moves_to e) = record s { active_element = e }
step r s renders = set_up (clean_up s).active_element

unfoldable pub steps : Refs → Focus → List Event → Focus
unfolding step
steps r s [] = s
steps r s (e ∷ es) = steps r (step r s e) es

focus_on-previous_focus :
    (o : Option ℕ) (s : Focus) → (focus_on o s).previous_focus ≡ s.previous_focus
unfolding focus_on
focus_on-previous_focus none s = refl
focus_on-previous_focus (some e) s = refl

step-previous_focus :
    (r : Refs) (s : Focus) (e : Event) → (step r s e).previous_focus ≡ s.previous_focus
unfolding step run_frame clean_up set_up
step-previous_focus r s frame_comes =
    ground (arith, focus_on-previous_focus (first_focus r.initial_focus r.dialog) s)
step-previous_focus r s (moves_to e) = refl
step-previous_focus r s renders = refl

steps-previous_focus :
    (r : Refs) (es : List Event) (s : Focus) → (steps r s es).previous_focus ≡ s.previous_focus
unfolding steps
steps-previous_focus r [] s = refl
steps-previous_focus r (e ∷ es) s =
    steps-previous_focus r es (step r s e) ∙ step-previous_focus r s e

rendered :
    (r : Refs) (s : Focus) (e : ℕ)
    → first_focus r.initial_focus r.dialog ≡ some e
    → (steps r s (renders ∷ frame_comes ∷ [])).active_element ≡ e
unfolding steps step run_frame set_up
rendered r s e h = rw (h, focus_on) refl

-- Whatever happens while a dialog is open, when it closes the focus is again on the element that
-- had it when the dialog opened. If there is an element for the first focus of the dialog, any
-- render with another `onClose`, and the frame after it, put the focus on this element, wherever
-- in the dialog it was.
pub clean_up-steps :
    (r : Refs) (active e : ℕ) (es : List Event)
    → first_focus r.initial_focus r.dialog ≡ some e
    → ((clean_up (steps r (set_up active) es)).active_element ≡ active)
      × ((steps r (steps r (set_up active) es) (renders ∷ frame_comes ∷ [])).active_element ≡ e)
unfolding clean_up set_up
clean_up-steps r active e es h =
    (steps-previous_focus r es (set_up active), rendered r (steps r (set_up active) es) e h)
