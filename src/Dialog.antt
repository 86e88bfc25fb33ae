-- ===== src/Dialog.antt =====
-- The dialogs: the keyboard trap that all of them use (frontend/src/hooks/useDialogFocus.ts) and the
-- two risk assessments (frontend/src/components/DeployRiskModal.tsx and RollbackRiskModal.tsx), which
-- keep the same state. Elements are known by numbers.
pub mod Focus
pub mod Consent
pub mod Lifetime
pub mod View
pub mod Examples
use ota_robot_system.Base.{
  ℕ, Bool, true, false, not, ◌&&◌, ◌||◌, Option, none, some, List, [], ◌∷◌, ◌++◌, ◌==◌, nat_eq,
  if◌then◌else◌, Out, only, Effect, callback,
}

-- Tab is pressed with Shift or without.
pub data Key : Type 0 where
  escape other_key : Key
  tab : Bool → Key

-- What the hook was given, and the page when a key is pressed: the dialog, and its visible
-- elements that can have the focus, in the order of the document.
pub record Trap : Type 0 where
  pub dialog : Option ℕ
  pub has_on_close : Bool
  pub is_busy : Bool
  pub focusable : List ℕ
  pub active_element : ℕ

-- What the handler does: whether it keeps the browser from acting, what it puts the focus on, and
-- whether it closes the dialog.
pub record Reaction : Type 0 where
  pub prevented : Bool
  pub focused : Option ℕ
  pub closed : Bool

abbrev pub ignored : Reaction
ignored = record { prevented = false; focused = none; closed = false }

abbrev pub moved : ℕ → Reaction
moved element = record { prevented = true; focused = some element; closed = false }

-- `focusable[focusable.length - 1]`.
unfoldable pub last_of : ℕ → List ℕ → ℕ
last_of x [] = x
last_of x (y ∷ ys) = last_of y ys

unfoldable pub on_tab : Bool → ℕ → List ℕ → ℕ → Reaction
unfolding last_of
on_tab shift dialog [] active = moved dialog
on_tab shift dialog (x ∷ xs) active =
    if shift && active == x
    then moved (last_of x xs)
    else if not shift && active == last_of x xs
    then moved x
    else ignored

unfoldable pub tab_in : Option ℕ → Bool → Trap → Reaction
unfolding on_tab
tab_in none shift t = ignored
tab_in (some dialog) shift t = on_tab shift dialog t.focusable t.active_element

-- `onKeyDown`.
unfoldable pub on_key_down : Trap → Key → Reaction
unfolding tab_in
on_key_down t escape =
    if t.has_on_close && not t.is_busy
    then record { prevented = true; focused = none; closed = true }
    else ignored
on_key_down t other_key = ignored
on_key_down t (tab shift) = tab_in t.dialog shift t

-- A risk assessment. The one of a launch is shown only with a firmware.
pub record Risk : Type 0 where
  pub is_open : Bool
  pub has_firmware : Bool
  pub is_busy : Bool
  pub acknowledged : Bool

-- What the page or the operator does: it opens or closes the dialog, starts or ends the call; the
-- box is ticked or cleared, and the buttons are pressed.
pub data Event : Type 0 where
  sets_open sets_busy checks : Bool → Event
  confirms cancels : Event

-- The effect behind a change of `isOpen`.
unfoldable pub opened : Bool → Risk → Risk
opened b s =
    if b && not s.is_open
    then record s { acknowledged = false; is_open = b }
    else record s { is_open = b }

abbrev pub shown : Risk → Bool
shown s = s.is_open && s.has_firmware

-- `handleConfirm`.
unfoldable pub handle_confirm : Risk → List Effect
handle_confirm s = if not s.acknowledged || s.is_busy then [] else callback "onConfirm" ∷ []

unfoldable pub step : Risk → Event → Out Risk
unfolding opened handle_confirm
step s (sets_open b) = only (opened b s)
step s (sets_busy b) = only (record s { is_busy = b })
step s (checks b) = only (if shown s then record s { acknowledged = b } else s)
step s confirms = record { state = s; effects = if shown s then handle_confirm s else [] }
step s cancels = record {
  state = s;
  effects = if shown s && not s.is_busy then callback "onClose" ∷ [] else [];
}

-- All that the dialog asks of the page in a history.
unfoldable pub run : Risk → List Event → List Effect
unfolding step
run s [] = []
run s (e ∷ es) = (step s e).effects ++ run (step s e).state es
