-- ===== src/Common.antt =====
-- The names that every module shares: the libraries' own, passed on, and the children's: Boolean
-- tests, list and table helpers, integers over the native numbers, and results that may fail.
mod Tests
mod Lists
mod Queries
mod Sorting
mod Latest
mod Int
mod Errors
unfoldable pub use Tests.*
unfoldable pub use Lists.*
unfoldable pub use Queries.*
unfoldable pub use Sorting.*
unfoldable pub use Latest.*
unfoldable pub use Int.*
unfoldable pub use Errors.*
pub use Prim.Native.Nat.{ℕ, zero, suc, ◌+◌, ◌-◌, ◌*◌, ◌/◌, ◌%◌, ◌^◌, ◌≤◌, ◌<◌}
pub use Prim.Native.String.{String}
pub use mathlib.Core.Path.{◌≡◌, refl, sym, ap, subst, ◌∙◌}
pub use mathlib.Core.Logic.{◌≢◌, ◌⊎◌, inl, inr}
pub use mathlib.Core.Bool.{Bool, true, false, not, ◌&&◌, ◌||◌}
pub use mathlib.Core.Option.{Option, none, some}
pub use mathlib.Core.List.{List, [], ◌∷◌, ◌++◌, map, foldl}
pub use native.Mathlib.Omega.{arith}
pub use text.Mathlib.Text.{◌==◌ as str_eq}
pub use text.Mathlib.TextEquality.{eq_iff}
