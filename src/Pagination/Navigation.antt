-- ===== src/Pagination/Navigation.antt =====
-- Where the buttons of the pager lead, and what the pager shows there.
use ota_robot_system.Base.{
  ℕ, zero, suc, ◌+◌, ◌-◌, ◌*◌, ◌/◌, ◌≤◌, ◌<◌, max, ◌≡◌, List, [], length, drop, length-take,
  length-drop, arith,
}
use ota_robot_system.Pagination.{
  Pager, total_pages, start_item, end_item, can_prev, can_next, Click, first, prev, next, last,
  rows_per_page, click, page_rows,
}
use ota_robot_system.Pagination.Pages.{drop_all, take-nil}

-- A page that the pager offers.
abbrev pub InRange : Pager → Type 0
InRange p = (1 ≤ p.current_page) × (p.current_page ≤ total_pages p)

total_pages-pos : (p : Pager) → 1 ≤ total_pages p
unfolding total_pages
total_pages-pos p = omega arith

-- No button leads away from the pages that there are.
pub click-InRange : (p : Pager) (c : Click) → InRange p → InRange (click p c)
unfolding click can_prev can_next total_pages
click-InRange p first h = ground arith
click-InRange p prev h = ground arith
click-InRange p next h = ground arith
click-InRange p last h = ground arith
click-InRange p (rows_per_page n) h = ground arith

mul-pred : (c s : ℕ) → 1 ≤ c → c * s ≡ (c - 1) * s + s
mul-pred zero s h = absurd (omega arith)
mul-pred (suc n) s h = let e : suc n - 1 ≡ n = omega arith in rw e (grind arith)

start-lt : (c s t : ℕ) → 0 < s → 1 ≤ c → 0 < t → c ≤ max 1 ((t + s - 1) / s) → (c - 1) * s < t
start-lt c s t h k n b = grind (arith, mul-pred c s k)

-- A page that there is starts within the table.
page_start-lt :
    (p : Pager)
    → 0 < p.page_size
    → InRange p
    → 0 < p.total_items
    → (p.current_page - 1) * p.page_size < p.total_items
unfolding total_pages
page_start-lt p h r n = start-lt p.current_page p.page_size p.total_items h r.0 n r.1

-- On a page that there is the pager counts the rows that the table shows: from its first item to
-- its last one there are as many, and both are within the table.
pub length-page_rows {ℓ} :
    {A : Type ℓ} (p : Pager) (rows : List A)
    → 0 < p.page_size
    → p.total_items ≡ length rows
    → InRange p
    → 0 < length rows
    → (start_item p + length (page_rows p.current_page p.page_size rows) ≡ end_item p + 1)
      × (1 ≤ start_item p)
      × (start_item p ≤ end_item p)
      × (end_item p ≤ length rows)
unfolding start_item end_item page_rows
length-page_rows p rows h e r n =
    let start = (p.current_page - 1) * p.page_size in
    let stop = p.current_page * p.page_size in
    let count = length-take (stop - start) (drop start rows) in
    let left = length-drop start rows in
    let inside = page_start-lt p h r (omega arith) in
    let product = mul-pred p.current_page p.page_size r.0 in
    (
      ground (arith, count, left, inside, product),
      ground (arith, inside),
      ground (arith, inside, product),
      omega arith,
    )

-- A page past the last row shows no row, though the table has some, and the pager then counts
-- from an item behind the last one.
pub page_rows_past_end {ℓ} :
    {A : Type ℓ} (p : Pager) (rows : List A)
    → p.total_items ≡ length rows
    → 0 < length rows
    → length rows ≤ (p.current_page - 1) * p.page_size
    → (page_rows p.current_page p.page_size rows ≡ []) × (end_item p < start_item p)
unfolding start_item end_item page_rows
page_rows_past_end p rows e n h = (
  rw (drop_all ((p.current_page - 1) * p.page_size) rows h)
      (take-nil (p.current_page * p.page_size - (p.current_page - 1) * p.page_size)),
  ground arith,
)
