-- ===== src/Toasts/Examples.antt =====
-- Notifications at work, and the theorems about them at concrete inputs.
use ota_robot_system.Base.{
  ◌≡◌, ◌≢◌, ◌↔◌, refl, String, none, List, [], ◌∷◌, length, Mem, arith, info,
}
use ota_robot_system.Toasts.{
  ToastItem, Toasts, no_toasts, remove_toast, show_toast, make_toast, Event, show, close, expire,
  steps,
}
use ota_robot_system.Toasts.Display.{show_toast-items, mem-remove_toast}
use ota_robot_system.Toasts.Timers.{AllTimed, steps-no_toasts-AllTimed}
use ota_robot_system.Base.{error}
use ota_robot_system.Toasts.View.{shown, shorthand}

abbrev toast : String → ToastItem
toast id = record {
  id = id;
  kind = info;
  title = "Checksum Copied";
  message = none;
  duration_ms = 4000;
}

-- Six are shown, one is closed and one runs out.
abbrev session : List Event
session =
    show (toast "a")
    ∷ show (toast "b")
    ∷ show (toast "c")
    ∷ show (toast "d")
    ∷ show (toast "e")
    ∷ show (toast "f")
    ∷ close "e"
    ∷ expire "c"
    ∷ []

steps-session : (steps no_toasts session).items ≡ toast "f" ∷ toast "d" ∷ toast "b" ∷ []
unfolding steps
steps-session = refl

make_toast-defaults : make_toast "a" "Checksum Copied" none none none ≡ toast "a"
unfolding make_toast
make_toast-defaults = refl

show_toast-items_example :
    ((show_toast (toast "a") no_toasts).items ≡ toast "a" ∷ [])
    × (length (show_toast (toast "a") no_toasts).items ≡ 1)
show_toast-items_example = show_toast-items no_toasts (toast "a") (omega arith)

abbrev two : Toasts
two = record { items = toast "a" ∷ toast "b" ∷ []; timers = [] }

mem-remove_toast_example :
    Mem (toast "a") (remove_toast "b" two).items
    ↔ (Mem (toast "a") two.items × ((toast "a").id ≢ "b"))
mem-remove_toast_example = mem-remove_toast two "b" (toast "a")

steps-no_toasts-AllTimed_example : AllTimed (steps no_toasts session)
steps-no_toasts-AllTimed_example = steps-no_toasts-AllTimed session

-- An error is read out at once.
role-error : (shown (shorthand error "a" "Upload Failed" none none)).role ≡ "alert"
unfolding shown shorthand make_toast
role-error = refl
