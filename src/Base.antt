-- ===== src/Base.antt =====
-- The names that the models share: the libraries', passed on, and those of the children: Boolean
-- tests, C arrays as lists, and the ways in which a call of C code can end.
mod Tests
mod Lists
mod Calls
pub mod Resources
pub mod Int
unfoldable pub use Tests.*
pub use Lists.*
pub use Calls.*
pub use Prim.Native.Nat.{ℕ, zero, suc, ◌+◌, ◌-◌, ◌*◌, ◌/◌, ◌%◌, ◌^◌, ◌≤◌, ◌<◌}
pub use mathlib.Core.Path.{◌≡◌, refl, sym, ap, ◌∙◌}
pub use mathlib.Core.Logic.{◌≢◌, ◌↔◌, ◌⊎◌, inl, inr}
pub use mathlib.Core.Bool.{Bool, true, false, not, ◌&&◌, ◌||◌}
pub use mathlib.Core.Option.{Option, none, some}
pub use mathlib.Core.List.{List, [], ◌∷◌, ◌++◌, map, append_assoc, append-nil}
pub use native.Mathlib.Omega.{arith}
