-- ===== src/Pagination.antt =====
-- The pager below each table (frontend/src/components/Pagination.tsx) and the slice of the rows
-- that the pages of the dashboard show. A page size is one of the options, so it is positive.
pub mod Pages
pub mod Navigation
pub mod Examples
use ota_robot_system.Base.{
  ℕ, ◌+◌, ◌-◌, ◌*◌, ◌/◌, max, min, Bool, List, take, drop, ltb, ◌==◌, nat_eq, if◌then◌else◌,
}

pub record Pager : Type 0 where
  pub current_page : ℕ
  pub total_items : ℕ
  pub page_size : ℕ

-- `Math.max(1, Math.ceil(totalItems / pageSize))`.
unfoldable pub total_pages : Pager → ℕ
total_pages p = max 1 ((p.total_items + p.page_size - 1) / p.page_size)

unfoldable pub start_item : Pager → ℕ
start_item p = if p.total_items == 0 then 0 else (p.current_page - 1) * p.page_size + 1

unfoldable pub end_item : Pager → ℕ
end_item p = min (p.current_page * p.page_size) p.total_items

unfoldable pub can_prev : Pager → Bool
can_prev p = ltb 1 p.current_page

unfoldable pub can_next : Pager → Bool
unfolding total_pages
can_next p = ltb p.current_page (total_pages p)

pub data Click : Type 0 where
  first prev next last : Click
  rows_per_page : ℕ → Click

-- What the page's state becomes; a button that is disabled does nothing.
unfoldable pub click : Pager → Click → Pager
unfolding can_prev can_next total_pages
click p first = if can_prev p then record p { current_page = 1 } else p
click p prev = if can_prev p then record p { current_page = p.current_page - 1 } else p
click p next = if can_next p then record p { current_page = p.current_page + 1 } else p
click p last = if can_next p then record p { current_page = total_pages p } else p
click p (rows_per_page n) = record p { page_size = n; current_page = 1 }

-- `xs.slice(i, j)` for indices that are not negative.
abbrev pub slice {ℓ} : {A : Type ℓ} → ℕ → ℕ → List A → List A
slice i j xs = take (j - i) (drop i xs)

-- `rows.slice((currentPage - 1) * pageSize, currentPage * pageSize)`.
unfoldable pub page_rows {ℓ} : {A : Type ℓ} → ℕ → ℕ → List A → List A
page_rows page size rows = slice ((page - 1) * size) (page * size) rows
