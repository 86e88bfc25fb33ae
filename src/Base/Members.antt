-- ===== src/Base/Members.antt =====
-- Membership in the arrays that `filter` and a `Set` give.
use mathlib.Core.Logic.Or
use mathlib.Core.Logic.{◌↔◌, inl, inr}
use mathlib.Core.Path.{◌≡◌, sym, ap, ◌∙◌}
use mathlib.Core.Bool.{Bool, true, ◌||◌, false≢true}
use mathlib.Core.List.{List, [], ◌∷◌, ◌++◌, Mem, Mem-prop, mem-cons, mem-cons_of_mem, not-mem-nil}
use mathlib.Core.HLevel.{×_prop}
use native.Mathlib.Omega.{arith}
use ota_robot_system.Base.Tests.{Bool-cases, Comparable, ◌==◌}
use ota_robot_system.Base.Lists.{filter, includes}

true_prop : (b : Bool) → IsProp (b ≡ true)
true_prop b = hlevel

module _ {ℓ} {A : Type ℓ} (p : A → Bool) where
  mem_of_mem-filter : (xs : List A) (a : A) → Mem a (filter p xs) → Mem a xs × (p a ≡ true)
  mem_of_mem-filter [] a m = absurd (not-mem-nil m)
  mem_of_mem-filter (x ∷ xs) a m = elim (Bool-cases (p x)) [
    | inl h ↦
        Or.elim (×_prop Mem-prop (true_prop (p a))) (mem-cons.0 (rw h at m))
          (λ e. (mem-cons.1 (Or.inl e), rw e h))
          (λ k. (mem-cons_of_mem x (mem_of_mem-filter xs a k).0, (mem_of_mem-filter xs a k).1))
    | inr h ↦
        let k : Mem a (filter p xs) = rw h at m in
        (mem-cons_of_mem x (mem_of_mem-filter xs a k).0, (mem_of_mem-filter xs a k).1)
  ]

  mem-filter_of_mem : (xs : List A) (a : A) → Mem a xs → p a ≡ true → Mem a (filter p xs)
  mem-filter_of_mem [] a m t = absurd (not-mem-nil m)
  mem-filter_of_mem (x ∷ xs) a m t = elim (Bool-cases (p x)) [
    | inl h ↦ rw h (
        Or.elim Mem-prop (mem-cons.0 m) (λ e. mem-cons.1 (Or.inl e))
          (λ k. mem-cons_of_mem x (mem-filter_of_mem xs a k t)))
    | inr h ↦ rw h (
        Or.elim Mem-prop (mem-cons.0 m) (λ e. absurd (false≢true (sym h ∙ ap p (sym e) ∙ t)))
          (λ k. mem-filter_of_mem xs a k t))
  ]

  -- `filter` keeps exactly the elements that pass the test.
  pub mem-filter : (xs : List A) (a : A) → Mem a (filter p xs) ↔ (Mem a xs × (p a ≡ true))
  mem-filter xs a = (mem_of_mem-filter xs a, λ h. mem-filter_of_mem xs a h.0 h.1)

module _ {ℓ} {A : Type ℓ} ⦃e : Comparable A⦄ where
  -- `includes` decides membership.
  pub includes-mem : (xs : List A) (a : A) → includes xs a ≡ true → Mem a xs
  includes-mem [] a h = absurd (false≢true h)
  includes-mem (x ∷ xs) a h = elim (Bool-cases (x == a)) [
    | inl q ↦ mem-cons.1 (Or.inl (sym ((e.same_iff x a).0 q)))
    | inr q ↦ mem-cons_of_mem x (includes-mem xs a (rw q at h))
  ]

  pub mem-includes : (xs : List A) (a : A) → Mem a xs → includes xs a ≡ true
  mem-includes [] a m = absurd (not-mem-nil m)
  mem-includes (x ∷ xs) a m =
      Or.elim (true_prop (includes (x ∷ xs) a)) (mem-cons.0 m)
        (λ q. rw ((e.same_iff x a).1 (sym q)))
        (λ k. elim (Bool-cases (x == a)) [ inl q ↦ rw q | inr q ↦ rw q (mem-includes xs a k) ])

  pub includes-append :
      (xs : List A) (x y : A) → includes (xs ++ x ∷ []) y ≡ (includes xs y || x == y)
  includes-append [] x y = ground arith
  includes-append (z ∷ xs) x y = ground (arith, includes-append xs x y)
