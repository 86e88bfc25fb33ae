-- ===== src/Toasts/Display.antt =====
-- Which notifications are on the screen.
use ota_robot_system.Base.{
  ◌+◌, ◌≤◌, min, ◌≡◌, ◌≢◌, ◌↔◌, refl, String, not, List, [], ◌∷◌, take, length, Mem, mem-filter,
  length-take, filter-length-le, string_eq, ◌==◌, arith, eq_iff,
}
use ota_robot_system.Toasts.{
  ToastItem, Toasts, no_toasts, remove_toast, show_toast, Event, show, close, expire, step, steps,
}

step-length : (s : Toasts) (e : Event) → length s.items ≤ 5 → length (step s e).items ≤ 5
unfolding step
step-length s (show t) h = omega (arith, length-take 5 (t ∷ s.items))
step-length s (close id) h = omega (arith, filter-length-le (λ t. not (t.id == id)) s.items)
step-length s (expire id) h = ground (arith, filter-length-le (λ t. not (t.id == id)) s.items)

steps-length : (es : List Event) (s : Toasts) → length s.items ≤ 5 → length (steps s es).items ≤ 5
unfolding steps
steps-length [] s h = h
steps-length (e ∷ es) s h = steps-length es (step s e) (step-length s e h)

-- There are never more than five notifications, whatever is shown, closed and run out.
pub length-steps : (es : List Event) → length (steps no_toasts es).items ≤ 5
length-steps es = steps-length es no_toasts (omega arith)

-- A new notification comes first, and those that were there stay in their order, the oldest one
-- dropped if there were five.
pub show_toast-items :
    (s : Toasts) (t : ToastItem)
    → length s.items ≤ 5
    → ((show_toast t s).items ≡ t ∷ take 4 s.items)
      × (length (show_toast t s).items ≡ min 5 (length s.items + 1))
unfolding show_toast
show_toast-items s t h = (refl, omega (arith, length-take 4 s.items))

-- Closing a notification removes it, and no notification of another id.
pub mem-remove_toast :
    (s : Toasts) (id : String) (t : ToastItem)
    → Mem t (remove_toast id s).items ↔ (Mem t s.items × (t.id ≢ id))
unfolding remove_toast
mem-remove_toast s id t = (
  λ m.
      let (k, h) = (mem-filter (λ u. not (u.id == id)) s.items t).0 m in
      (k, λ e. ground (arith, h, eq_iff t.id id)),
  λ k. (mem-filter (λ u. not (u.id == id)) s.items t).1 (k.0, ground (arith, k.1, eq_iff t.id id)),
)
