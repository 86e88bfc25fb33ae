-- ===== src/Planning/Factories.antt =====
-- `deriveFactories`: the factories of the fleet, each once.
use mathlib.Core.List.{
  mem-cons, not-mem-nil, mem-append, mem-cons_self, mem-cons_of_mem, Mem-prop, Pairwise, Nodup,
  Nodup-append, Nodup-cons,
}
use mathlib.Core.HLevel.{×_prop, ¬_prop}
use mathlib.Core.Logic.{◌∨₁◌, ∨₁_prop}
use mathlib.Core.Logic.Or
use ota_robot_system.Base.{
  ◌≡◌, ◌≢◌, ◌↔◌, false, String, List, [], ◌∷◌, map, Mem, includes, mem-includes, includes-mem,
  truthy, string_eq, Bool-cases, inl, inr, sym, ◌∙◌, truthy_iff, eq_of_not-truthy,
}
use ota_robot_system.Types.{Device}
use ota_robot_system.Planning.{add, add_factories, derive_factories}

mem-add : (s : List String) (x y : String) → Mem y (add s x) ↔ (Mem y s ∨₁ (y ≡ x))
unfolding add
mem-add s x y = elim (Bool-cases (includes s x)) [
  | inl h ↦ rw h (λ m. Or.inl m, λ o. Or.elim Mem-prop o (λ m. m) (λ e. rw e (includes-mem s x h)))
  | inr h ↦ rw h (
    λ m.
        Or.elim ∨₁_prop (mem-append.0 m) (λ k. Or.inl k)
          (λ k. Or.elim ∨₁_prop (mem-cons.0 k) (λ e. Or.inr e) (λ j. absurd (not-mem-nil j))),
    λ o. mem-append.1 (Or.imp (λ k. k) (λ e. rw e mem-cons_self) o),
  )
]

not-mem_of_includes : (s : List String) (x : String) → includes s x ≡ false → ¬ Mem x s
not-mem_of_includes s x h m = cc (mem-includes s x m)

add-Nodup : (s : List String) (x : String) → Nodup s → Nodup (add s x)
unfolding add
add-Nodup s x n = elim (Bool-cases (includes s x)) [
  | inl h ↦ rw h n
  | inr h ↦ rw h (
      Nodup-append.1 (
        n,
        Nodup-cons.1 (not-mem-nil, Pairwise.nil),
        λ y m k.
            Or.elim (λ a b. absurd a) (mem-cons.0 k) (λ e. not-mem_of_includes s x h (rw e at m))
              (λ j. not-mem-nil j),
      ))
]

add_factories-Nodup : (s : List String) (ds : List Device) → Nodup s → Nodup (add_factories s ds)
unfolding add_factories
add_factories-Nodup s [] n = n
add_factories-Nodup s (d ∷ ds) n = elim (Bool-cases (truthy d.factory_id)) [
  | inl h ↦ rw h (add_factories-Nodup (add s d.factory_id) ds (add-Nodup s d.factory_id n))
  | inr h ↦ rw h (add_factories-Nodup s ds n)
]

mem-add_factories :
    (s : List String) (ds : List Device) (f : String)
    → Mem f (add_factories s ds) ↔ (Mem f s ∨₁ (Mem f (map (λ d. d.factory_id) ds) × (f ≢ "")))
unfolding add_factories
mem-add_factories s [] f =
    (λ m. Or.inl m, λ o. Or.elim Mem-prop o (λ m. m) (λ h. absurd (not-mem-nil h.0)))
mem-add_factories s (d ∷ ds) f = elim (Bool-cases (truthy d.factory_id)) [
  | inl h ↦ rw h (
    λ m.
        Or.elim ∨₁_prop ((mem-add_factories (add s d.factory_id) ds f).0 m)
          (λ k.
            Or.elim ∨₁_prop ((mem-add s d.factory_id f).0 k) (λ j. Or.inl j)
              (λ e. Or.inr (rw e mem-cons_self, λ z. (truthy_iff d.factory_id).0 h (sym e ∙ z))))
          (λ k. Or.inr (mem-cons_of_mem d.factory_id k.0, k.1)),
    λ o. (mem-add_factories (add s d.factory_id) ds f).1 (
        Or.elim ∨₁_prop o (λ k. Or.inl ((mem-add s d.factory_id f).1 (Or.inl k)))
          (λ k.
            Or.elim ∨₁_prop (mem-cons.0 k.0) (λ e. Or.inl ((mem-add s d.factory_id f).1 (Or.inr e)))
              (λ j. Or.inr (j, k.1)))),
  )
  | inr h ↦ rw h (
    λ m.
        Or.imp (λ k. k) (λ k. (mem-cons_of_mem d.factory_id k.0, k.1))
          ((mem-add_factories s ds f).0 m),
    λ o. (mem-add_factories s ds f).1 (
        Or.elim ∨₁_prop o (λ k. Or.inl k)
          (λ k.
            Or.elim ∨₁_prop (mem-cons.0 k.0)
              (λ e. absurd (k.1 (e ∙ eq_of_not-truthy d.factory_id h))) (λ j. Or.inr (j, k.1)))),
  )
]

-- The factories that the dashboard offers are those of the fleet's robots that are not empty
-- texts, and none is listed twice.
pub derive_factories_lem :
    (devices : List Device)
    → Nodup (derive_factories devices)
      × ((f : String)
          → Mem f (derive_factories devices) ↔ (Mem f (map (λ d. d.factory_id) devices) × (f ≢ "")))
unfolding derive_factories
derive_factories_lem devices = (
  add_factories-Nodup [] devices Pairwise.nil,
  λ f. (
    λ m.
        Or.elim (×_prop Mem-prop ¬_prop) ((mem-add_factories [] devices f).0 m)
          (λ k. absurd (not-mem-nil k)) (λ k. k),
    λ h. (mem-add_factories [] devices f).1 (Or.inr h),
  ),
)
