-- ===== src/Pagination/Pages.antt =====
-- The pages of a table are its rows, each once and in order.
use ota_robot_system.Base.{
  ℕ, zero, suc, ◌+◌, ◌-◌, ◌*◌, ◌≤◌, ◌<◌, ◌≡◌, refl, ap, ◌∙◌, List, [], ◌∷◌, ◌++◌, take, drop,
  length, drop-nil, arith,
}
use native.Mathlib.Nat.{zero-add, zero-mul}
use ota_robot_system.Pagination.{Pager, total_pages, page_rows}

module _ {ℓ} {A : Type ℓ} where
  -- The first `n` pages, one after the other.
  pub first_pages : ℕ → ℕ → List A → List A
  first_pages zero size rows = []
  first_pages (suc n) size rows = first_pages n size rows ++ page_rows (suc n) size rows

  pub take-nil : (n : ℕ) → take {A = A} n [] ≡ []
  take-nil zero = refl
  take-nil (suc n) = refl

  take-append-take-drop :
      (m n : ℕ) (xs : List A) → take m xs ++ take n (drop m xs) ≡ take (m + n) xs
  take-append-take-drop zero n xs = rw zero-add
  take-append-take-drop (suc m) n [] = rw (take-nil n, take-nil (suc m + n))
  take-append-take-drop (suc m) n (x ∷ xs) =
      let e : suc m + n ≡ suc (m + n) = omega arith in
      rw e (ap (x ∷◌) (take-append-take-drop m n xs))

  pub drop_all : (n : ℕ) (xs : List A) → length xs ≤ n → drop n xs ≡ []
  drop_all n [] h = drop-nil n
  drop_all zero (x ∷ xs) h = absurd (omega arith)
  drop_all (suc n) (x ∷ xs) h = drop_all n xs (omega arith)

  take_all : (n : ℕ) (xs : List A) → length xs ≤ n → take n xs ≡ xs
  take_all zero [] h = refl
  take_all zero (x ∷ xs) h = absurd (omega arith)
  take_all (suc n) [] h = refl
  take_all (suc n) (x ∷ xs) h = ap (x ∷◌) (take_all n xs (omega arith))

  first_pages-take : (n size : ℕ) (rows : List A) → first_pages n size rows ≡ take (n * size) rows
  unfolding first_pages page_rows
  first_pages-take zero size rows = rw zero-mul
  first_pages-take (suc n) size rows =
      let e : suc n * size ≡ n * size + size = grind arith in
      let f : suc n - 1 ≡ n = omega arith in
      let g : n * size + size - n * size ≡ size = omega arith in
      rw (first_pages-take n size rows, f, e, g) (take-append-take-drop (n * size) size rows)

total_pages_enough : (p : Pager) → 0 < p.page_size → p.total_items ≤ total_pages p * p.page_size
unfolding total_pages
total_pages_enough p h = grind arith

-- The pages from the first to the last that the pager offers, put together, are all rows of the
-- table, in order and each once.
pub first_pages-total_pages {ℓ} :
    {A : Type ℓ} (p : Pager) (rows : List A)
    → 0 < p.page_size
    → p.total_items ≡ length rows
    → first_pages (total_pages p) p.page_size rows ≡ rows
first_pages-total_pages p rows h e =
    first_pages-take (total_pages p) p.page_size rows
    ∙ take_all (total_pages p * p.page_size) rows (omega (arith, total_pages_enough p h))
