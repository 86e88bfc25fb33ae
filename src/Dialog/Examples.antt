-- ===== src/Dialog/Examples.antt =====
-- Dialogs at work, and the theorems about them at concrete inputs.
use ota_robot_system.Base.{
  ℕ, suc, ◌-◌, ◌≡◌, ◌↔◌, refl, Bool, true, false, some, List, [], ◌∷◌, nat_eq, any, if◌then◌else◌,
  callback,
}
use ota_robot_system.Dialog.{
  escape, Trap, on_key_down, ignored, Risk, Event, sets_open, sets_busy, checks, confirms, cancels,
  shown, step, run,
}
use ota_robot_system.Dialog.Consent.{is_confirmation, confirms_iff}
use ota_robot_system.Dialog.Lifetime.{Refs}
use ota_robot_system.Dialog.View.{launch_buttons}

-- A dialog with a close button, a box and two buttons, the last of which has the focus.
abbrev assessment : Trap
assessment = record {
  dialog = some 0;
  has_on_close = true;
  is_busy = true;
  focusable = 1 ∷ 2 ∷ 3 ∷ 4 ∷ [];
  active_element = 4;
}

abbrev neighbours : Bool → ℕ → ℕ
neighbours shift x = if shift then x - 1 else suc x

escape-busy : on_key_down assessment escape ≡ ignored
unfolding on_key_down
escape-busy = refl

-- It was agreed to before, when the dialog was open.
abbrev agreed : Risk
agreed = record { is_open = false; has_firmware = true; is_busy = false; acknowledged = true }

abbrev hasty : List Event
hasty = confirms ∷ checks false ∷ confirms ∷ cancels ∷ []

run-consent :
    run agreed (sets_open true ∷ checks true ∷ confirms ∷ sets_busy true ∷ confirms ∷ cancels ∷ [])
    ≡ callback "onConfirm" ∷ []
unfolding run
run-consent = refl

abbrev ready : Risk
ready = record agreed { is_open = true }

confirms_iff_example :
    (any is_confirmation (step ready confirms).effects ≡ true)
    ↔ ((shown ready ≡ true) × (ready.acknowledged ≡ true) × (ready.is_busy ≡ false))
confirms_iff_example = confirms_iff ready

-- The close button is 7, the dialog is 8, and the focus was on 3.
abbrev refs : Refs
refs = record { initial_focus = some 7; dialog = some 8 }

-- The box is not ticked yet.
launch_buttons-new : (launch_buttons false false).confirm_disabled ≡ true
unfolding launch_buttons
launch_buttons-new = refl
