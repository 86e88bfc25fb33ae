-- ===== src/Fleet/Options/Order.antt =====
-- The lists of the filter bar are in order, and agree with the lists of the launch form.
use mathlib.Core.List.{Perm}
use mathlib.Core.List.Perm as Perm
use Prim.Native.Nat.{Ordering}
use Prim.Native.Nat as Nat
use Prim.Native.String.{compare, then as first_of}
use Prim.Native.String.compare as Compare
use Prim.Native.Char.{code}
use ota_robot_system.Base.{
  ◌≡◌, ◌≢◌, refl, ℕ, String, List, [], ◌∷◌, truthy, ◌⊎◌, inl, inr, arith, if◌then◌else◌,
}
use ota_robot_system.Types.{Device}
use ota_robot_system.Planning.{add, add_factories, derive_factories}
use ota_robot_system.Fleet.Options.{collect, insert, sort, options, factories}

-- No text is greater than the next one.
abbrev pub IsAscending : List String → Type 0
IsAscending [] = Unit {0}
IsAscending (x ∷ []) = Unit {0}
IsAscending (x ∷ y ∷ ys) = (compare x y ≢ Ordering.gt) × IsAscending (y ∷ ys)

then_asymm :
    (a b : ℕ) (r q : Ordering)
    → (r ≡ Ordering.gt → q ≢ Ordering.gt)
    → first_of (Nat.compare a b) r ≡ Ordering.gt
    → first_of (Nat.compare b a) q ≢ Ordering.gt
then_asymm a b r q ih h = ground arith

compare_asymm : (x y : String) → compare x y ≡ Ordering.gt → compare y x ≢ Ordering.gt
compare_asymm String.[] String.[] h e = cc
compare_asymm String.[] (String.◌∷◌ d t) h e = cc (Compare.nil-cons d t)
compare_asymm (String.◌∷◌ c s) String.[] h e = cc (Compare.nil-cons c s)
compare_asymm (String.◌∷◌ c s) (String.◌∷◌ d t) h e =
    then_asymm (code c) (code d) (compare s t) (compare t s) (compare_asymm s t)
      (rw (Compare.cons-cons c d s t) at h) (rw (Compare.cons-cons d c t s) at e)

gt-cases : (o : Ordering) → (o ≡ Ordering.gt) ⊎ (o ≢ Ordering.gt)
gt-cases Ordering.gt = inl refl
gt-cases Ordering.lt = inr (λ e. cc)
gt-cases Ordering.eq = inr (λ e. cc)

insert_gt :
    (x y : String) (ys : List String)
    → compare x y ≡ Ordering.gt
    → insert x (y ∷ ys) ≡ y ∷ insert x ys
unfolding insert
insert_gt x y ys h = rw (h, insert) refl

insert_le :
    (x y : String) (ys : List String) → compare x y ≢ Ordering.gt → insert x (y ∷ ys) ≡ x ∷ y ∷ ys
unfolding insert
insert_le x y ys h = ground arith

-- A text before `x` in the order stands before what `x` is put into.
insert-IsAscending : (x : String) (ys : List String) → IsAscending ys → IsAscending (insert x ys)
unfolding insert
insert-IsAscending x [] h = tt
insert-IsAscending x (y ∷ []) h = elim (gt-cases (compare x y)) [
  | inl g ↦ rw (insert_gt x y [] g) (compare_asymm x y g, tt)
  | inr g ↦ rw (insert_le x y [] g) (g, tt)
]
insert-IsAscending x (y ∷ z ∷ zs) h = elim (gt-cases (compare x y)) [
  | inl g ↦ rw (insert_gt x y (z ∷ zs) g) (elim (gt-cases (compare x z)) [
    | inl k ↦
        rw (insert_gt x z zs k)
          (h.0, rw (insert_gt x z zs k) at (insert-IsAscending x (z ∷ zs) h.1))
    | inr k ↦ rw (insert_le x z zs k) (compare_asymm x y g, (k, h.1))
  ])
  | inr g ↦ rw (insert_le x y (z ∷ zs) g) (g, h)
]

sort-IsAscending : (xs : List String) → IsAscending (sort xs)
unfolding sort
sort-IsAscending [] = tt
sort-IsAscending (x ∷ xs) = insert-IsAscending x (sort xs) (sort-IsAscending xs)

insert-perm : (x : String) (ys : List String) → Perm (insert x ys) (x ∷ ys)
insert-perm x [] = unfold insert in Perm.rfl
insert-perm x (y ∷ ys) = elim (gt-cases (compare x y)) [
  | inl g ↦ rw (insert_gt x y ys g) (Perm.trans (Perm.cons y (insert-perm x ys)) (Perm.swap x y ys))
  | inr g ↦ rw (insert_le x y ys g) Perm.rfl
]

sort-perm : (xs : List String) → Perm (sort xs) xs
unfolding sort
sort-perm [] = Perm.rfl
sort-perm (x ∷ xs) = Perm.trans (insert-perm x (sort xs)) (Perm.cons x (sort-perm xs))

collect-factory_id :
    (s : List String) (ds : List Device) → collect (λ d. d.factory_id) s ds ≡ add_factories s ds
unfolding collect add_factories
collect-factory_id s [] = refl
collect-factory_id s (d ∷ ds) =
    collect-factory_id (if truthy d.factory_id then add s d.factory_id else s) ds

-- The filter bar of the overview offers the factories that the launch form derives from the same
-- robots, each as often, and in ascending order.
pub factories-derive_factories :
    (devices : List Device)
    → Perm (factories devices) (derive_factories devices) × IsAscending (factories devices)
unfolding factories options derive_factories
factories-derive_factories devices = (
  rw (← collect-factory_id [] devices) (sort-perm (collect (λ d. d.factory_id) [] devices)),
  sort-IsAscending (collect (λ d. d.factory_id) [] devices),
)
