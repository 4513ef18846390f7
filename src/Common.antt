-- ===== src/Common.antt =====
-- The names that the other modules share: the libraries', passed on, and those of the children,
-- which hold Boolean tests, machine words, lists, ordered maps and text.
mod Tests
mod Words
mod Lists
mod Ordered
mod Text
mod Results
mod Sorting
mod Lines
pub use Tests.*
pub use Words.*
pub use Lists.*
unfoldable pub use Ordered.*
pub use Results.*
unfoldable pub use Sorting.*
unfoldable pub use Lines.*
unfoldable pub use Text.*
pub use Prim.Native.Nat.{ℕ, zero, suc, ◌+◌, ◌-◌, ◌*◌, ◌/◌, ◌%◌, ◌^◌, ◌≤◌, ◌<◌, Ordering}
pub use Prim.Native.String.{String}
pub use mathlib.Core.Path.{◌≡◌, refl, sym, ap, ◌∙◌, subst}
pub use mathlib.Core.Logic.{◌≢◌, ◌↔◌, ◌⊎◌, inl, inr}
pub use mathlib.Core.Bool.{Bool, true, false, not, ◌&&◌, ◌||◌}
pub use mathlib.Core.Option.{Option, none, some}
pub use mathlib.Core.List.{List, [], ◌∷◌, ◌++◌, map, Memᴰ}
pub use native.Mathlib.Omega.{arith}
pub use text.Mathlib.Text.{◌==◌ as str_eq}
pub use text.Mathlib.TextEquality.{eq_iff}
