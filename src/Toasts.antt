-- ===== src/Toasts.antt =====
-- `ToastProvider` (frontend/src/context/ToastContext.tsx): the list of notifications and the
-- timers that take them away. The id, of the clock and a random number, is an argument.
pub mod Display
pub mod Timers
pub mod View
pub mod Examples
use ota_robot_system.Base.{
  ℕ, String, Bool, not, Option, none, some, List, [], ◌∷◌, ◌++◌, take, filter, includes, ltb, ◌==◌,
  string_eq, if◌then◌else◌, get_or, ToastType, success, error, warning, info, default_duration,
}

pub record ToastItem : Type 0 where
  pub id : String
  pub kind : ToastType
  pub title : String
  pub message : Option String
  pub duration_ms : ℕ

pub record Toasts : Type 0 where
  pub items : List ToastItem
  -- the toasts that a timer waits to remove
  pub timers : List String

abbrev pub no_toasts : Toasts
no_toasts = record { items = []; timers = [] }

-- `removeToast`.
unfoldable pub remove_toast : String → Toasts → Toasts
remove_toast id s = record s { items = filter (λ t. not (t.id == id)) s.items }

-- `showToast`, of an id that was made for it.
unfoldable pub show_toast : ToastItem → Toasts → Toasts
show_toast t s = record {
  items = take 5 (t ∷ s.items);
  timers = if ltb 0 t.duration_ms then s.timers ++ t.id ∷ [] else s.timers;
}

-- The arguments that may be left out.
unfoldable pub make_toast :
    String → String → Option String → Option ToastType → Option ℕ → ToastItem
make_toast id title message kind duration = record {
  id = id;
  kind = get_or kind info;
  title = title;
  message = message;
  duration_ms = get_or duration default_duration;
}

erase_first : String → List String → List String
erase_first id [] = []
erase_first id (t ∷ ts) = if t == id then ts else t ∷ erase_first id ts

pub data Event : Type 0 where
  show : ToastItem → Event
  close : String → Event
  expire : String → Event

-- Only a timer that is set runs out.
unfoldable pub step : Toasts → Event → Toasts
unfolding remove_toast show_toast erase_first
step s (show t) = show_toast t s
step s (close id) = remove_toast id s
step s (expire id) =
    if includes s.timers id
    then remove_toast id (record s { timers = erase_first id s.timers })
    else s

unfoldable pub steps : Toasts → List Event → Toasts
unfolding step
steps s [] = s
steps s (e ∷ es) = steps (step s e) es
