-- ===== src/Base.antt =====
-- The names that the other modules share: the libraries', passed on, and those of the children.
mod Tests
mod Lists
mod Strings
mod Sums
mod Maps
pub mod Sort
pub mod Ordered
pub mod Tables
pub mod Int
pub mod Space
pub use Tests.*
pub use Lists.*
unfoldable pub use Lists.{take, drop}
pub use Strings.*
pub use Sums.*
unfoldable pub use Sums.{sum_by}
pub use Maps.*
unfoldable pub use Maps.{find, find_or, put, keys}
unfoldable pub use Strings.{str_eq, str_lt, has_prefix, elem, count}
pub use Prim.Native.Nat.{ℕ, zero, suc, ◌+◌, ◌-◌, ◌*◌, ◌/◌, ◌%◌, ◌^◌, ◌≤◌, ◌<◌, min}
pub use mathlib.Core.Path.{◌≡◌, refl, sym, ap, ◌∙◌, subst}
pub use mathlib.Core.Logic.{◌≢◌, ◌↔◌, ◌⊎◌, inl, inr}
pub use mathlib.Core.Bool.{Bool, true, false, not, ◌&&◌, ◌||◌}
pub use mathlib.Core.Option.{Option, none, some}
pub use mathlib.Core.List.{List, [], ◌∷◌, ◌++◌, map, foldl, append_assoc, append-nil}
pub use native.Mathlib.Omega.{arith}
