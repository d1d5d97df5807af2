-- ===== src/Common.antt =====
-- The names that the other modules share: the libraries', passed on, and those of the children
-- below: Boolean tests, decidable equality, lists, dictionaries, the results of fallible code and
-- the parts of Python's standard library that the gateway calls.
mod Tests
mod Equality
mod Seq
mod Elements
pub mod Fuel
pub mod Dict
mod Text
pub mod Outcome
pub mod Method
pub mod Json
mod Python
pub use Tests.*
pub use Equality.*
pub use Seq.*
pub use Elements.*
pub use Fuel.*
unfoldable pub use Text.*
pub use Outcome.*
pub use Python.*
pub use Prim.Native.Nat.{ℕ, zero, suc, ◌+◌, ◌-◌, ◌*◌, ◌^◌, ◌≤◌, ◌<◌}
pub use Prim.Native.String.{String}
pub use mathlib.Core.Path.{◌≡◌, refl, sym, ap, subst, ◌∙◌}
pub use mathlib.Core.Logic.{◌≢◌, ◌↔◌, ◌⊎◌, inl, inr}
pub use mathlib.Core.Bool.{Bool, true, false, not, ◌&&◌, ◌||◌}
pub use mathlib.Core.Option.{Option, none, some}
pub use mathlib.Core.List.{List, [], ◌∷◌, ◌++◌, map}
pub use native.Mathlib.Omega.{arith}
