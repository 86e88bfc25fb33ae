-- ===== src/Base.antt =====
-- Names that the other modules share: the libraries', passed on, and those of three children.
mod Tests
mod Lists
mod Effects
mod Texts
mod Int
mod Members
pub use Tests.*
pub use Lists.*
pub use Effects.*
unfoldable pub use Texts.{codes, trim, to_lower_case, to_upper_case, starts_with, contains}
pub use Texts.{trim-trim, starts_with-both}
pub use Int.*
pub use Members.*
pub use Prim.Native.Nat.{ℕ, zero, suc, ◌+◌, ◌-◌, ◌*◌, ◌/◌, ◌%◌, ◌≤◌, ◌<◌, min, max}
pub use Prim.Native.String.{String}
pub use text.Mathlib.TextEquality.{eq_iff}
pub use text.Mathlib.TextPositions.{eq_refl}
pub use mathlib.Core.Path.{◌≡◌, refl, sym, ap, ◌∙◌}
pub use mathlib.Core.Logic.{◌≢◌, ◌↔◌, ◌⊎◌, inl, inr}
pub use mathlib.Core.Bool.{Bool, true, false, not, ◌&&◌, ◌||◌}
pub use mathlib.Core.Option.{Option, none, some}
pub use mathlib.Core.List.{List, [], ◌∷◌, ◌++◌, map, Mem}
pub use native.Mathlib.Omega.{arith}
