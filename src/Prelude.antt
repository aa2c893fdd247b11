-- ===== src/Prelude.antt =====
-- The names that the other modules share: the libraries', passed on, and those of the children on
-- Boolean tests, on lists measured by native numbers and on C strings.
mod Tests
mod Lists
mod Text
mod Number
pub mod Int
pub use Tests.*
pub use Lists.*
pub use Text.*
unfoldable pub use Text.{equal, starts_with, cut, split, render, clip, until_zero}
unfoldable pub use Number.{atoi}
pub use Number.Decimal.*
pub use Prim.Native.Nat.{ℕ, zero, suc, ◌+◌, ◌-◌, ◌*◌, ◌/◌, ◌%◌, ◌^◌, ◌≤◌, ◌<◌}
pub use mathlib.Core.Path.{◌≡◌, refl, sym, ap, ◌∙◌, subst}
pub use mathlib.Core.Logic.{◌≢◌, ◌↔◌, ◌⊎◌, inl, inr}
pub use mathlib.Core.Bool.{Bool, true, false, not, ◌&&◌, ◌||◌}
pub use mathlib.Core.Option.{Option, none, some}
pub use mathlib.Core.List.{List, [], ◌∷◌, ◌++◌, map, append-nil, append_assoc}
pub use native.Mathlib.Omega.{arith}
