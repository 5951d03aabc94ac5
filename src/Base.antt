-- ===== src/Base.antt =====
-- Names that the other modules share: the libraries', passed on, with the Boolean tests, the list
-- functions, the equality interface and the association lists that stand for `HashMap`.
mod Tests
mod Lists
mod Equality
pub mod Dict
pub mod Text
pub mod TextOrder
pub mod Int
pub mod Utf8
pub mod Order
pub mod Sorting
pub mod Bits
pub use Tests.*
pub use Lists.*
pub use Equality.*
pub use Prim.Native.Nat.{ℕ, zero, suc, ◌+◌, ◌-◌, ◌*◌, ◌/◌, ◌%◌, ◌^◌, ◌≤◌, ◌<◌, min, max}
pub use Prim.Native.String.{String}
pub use mathlib.Core.Path.{◌≡◌, refl, sym, ap, ◌∙◌}
pub use mathlib.Core.Logic.{◌≢◌, ◌↔◌, ◌⊎◌, inl, inr}
pub use mathlib.Core.Bool.{Bool, true, false, not, ◌&&◌, ◌||◌}
pub use mathlib.Core.Option.{Option, none, some}
pub use mathlib.Core.List.{List, [], ◌∷◌, ◌++◌, map}
pub use native.Mathlib.Omega.{arith}
