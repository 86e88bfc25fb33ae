-- ===== src/Base/Tests.antt =====
-- Boolean tests on numbers and texts, and the conditional.
use Prim.Native.Nat.{ℕ, ◌≤◌, compare, Ordering}
use Prim.Native.String.{String}
use mathlib.Core.Path.{◌≡◌, refl}
use mathlib.Core.Logic.{◌≢◌, ◌↔◌, ◌⊎◌, inl, inr}
use mathlib.Core.Bool.{Bool, true, false, ◌&&◌, not}
use mathlib.Core.Option.{Option, none, some}
use native.Mathlib.Omega.{arith}
use text.Mathlib.Text.{◌==◌ as str_eq}
use text.Mathlib.TextEquality.{eq_iff}

abbrev pub ltb : ℕ → ℕ → Bool
ltb a b = elim (compare a b) [ Ordering.lt ↦ true | _ ↦ false ]

abbrev pub leb : ℕ → ℕ → Bool
leb a b = elim (compare a b) [ Ordering.gt ↦ false | _ ↦ true ]

abbrev pub nat_beq : ℕ → ℕ → Bool
nat_beq a b = elim (compare a b) [ Ordering.eq ↦ true | _ ↦ false ]

infix 1 if◌then◌else◌
abbrev pub if◌then◌else◌ {ℓ} : {A : Type ℓ} → Bool → A → A → A
if true then x else y = x
if false then x else y = y

pub Bool-cases : (b : Bool) → (b ≡ true) ⊎ (b ≡ false)
Bool-cases true = inl refl
Bool-cases false = inr refl

pub &&_iff : (a b : Bool) → ((a && b) ≡ true) ↔ ((a ≡ true) × (b ≡ true))
&&_iff a b = (λ h. ground arith, λ h. ground arith)

pub leb→le : (a b : ℕ) → leb a b ≡ true → a ≤ b
leb→le a b h = ground arith

pub nat_beq_iff : (a b : ℕ) → (nat_beq a b ≡ true) ↔ (a ≡ b)
nat_beq_iff a b = ground arith

-- The `===` of a type whose values the program compares, as the interface that its clients take.
pub record Comparable {ℓ} (T : Type ℓ) : Type ℓ where
  pub same : T → T → Bool
  -- `===` is true of equal values, and of these only
  pub same_iff : (x y : T) → (same x y ≡ true) ↔ (x ≡ y)

-- Texts are compared by their characters.
instance abbrev pub string_eq : Comparable String
string_eq = record { same_iff = eq_iff; same = str_eq }

-- The truth value of a JavaScript string: the empty one is false.
abbrev pub truthy : String → Bool
truthy s = not (str_eq s "")

pub truthy_iff : (s : String) → (truthy s ≡ true) ↔ (s ≢ "")
truthy_iff s = (λ h e. ground (arith, eq_iff s ""), λ h. ground (arith, eq_iff s ""))

pub eq_of_not-truthy : (s : String) → truthy s ≡ false → s ≡ ""
eq_of_not-truthy s h = ground (arith, eq_iff s "")

-- `s || d` on strings.
abbrev pub or_else : String → String → String
or_else s d = if truthy s then s else d

-- `o ?? d`.
abbrev pub get_or {ℓ} : {A : Type ℓ} → Option A → A → A
get_or none d = d
get_or (some a) d = a

-- `Boolean(o)` of an object that may be missing.
abbrev pub is_some {ℓ} : {A : Type ℓ} → Option A → Bool
is_some none = false
is_some (some a) = true

instance abbrev pub nat_eq : Comparable ℕ
nat_eq = record { same_iff = nat_beq_iff; same = nat_beq }

infix 50 ◌==◌
abbrev pub ◌==◌ {ℓ} : {T : Type ℓ} → ⦃c : Comparable T⦄ → T → T → Bool
◌==◌ ⦃c⦄ x y = c.same x y
