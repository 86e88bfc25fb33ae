-- ===== src/Pagination/Examples.antt =====
-- Pages of a table of seven rows, and the theorems about pages at concrete inputs.
use ota_robot_system.Base.{ℕ, ◌≡◌, refl, List, [], ◌∷◌, arith}
use ota_robot_system.Pagination.{Pager, total_pages, page_rows}
use ota_robot_system.Pagination.Pages.{first_pages, first_pages-total_pages}
use ota_robot_system.Pagination.Navigation.{InRange}

abbrev rows : List ℕ
rows = 1 ∷ 2 ∷ 3 ∷ 4 ∷ 5 ∷ 6 ∷ 7 ∷ []

abbrev at : ℕ → Pager
at page = record { current_page = page; total_items = 7; page_size = 5 }

page_rows-second : page_rows 2 5 rows ≡ 6 ∷ 7 ∷ []
unfolding page_rows
page_rows-second = refl

second-InRange : InRange (at 2)
unfolding total_pages
second-InRange = (omega arith, omega arith)

first_pages-total_pages_example : first_pages (total_pages (at 1)) 5 rows ≡ rows
first_pages-total_pages_example = first_pages-total_pages (at 1) rows (omega arith) refl
