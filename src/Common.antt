-- ===== src/Common.antt =====
-- The names that the models share: the libraries', passed on, and those of the children, which hold
-- Boolean tests on the native numbers (Tests), lists indexed by them (Lists), C `int` results (Int),
-- exclusive or and the masks of C (Bits) families indexed by thread (Family) and the `switch` over error codes (Switch).
mod Tests
mod Lists
mod Int
pub mod Bits
pub mod Cells
pub mod Family
pub mod Switch
pub use Tests.*
pub use Lists.*
pub use Int.*
pub use Prim.Native.Nat.{ℕ, zero, suc, ◌+◌, ◌-◌, ◌*◌, ◌/◌, ◌%◌, ◌^◌, ◌≤◌, ◌<◌}
pub use mathlib.Core.Path.{◌≡◌, refl, sym, ap, subst, ◌∙◌}
pub use mathlib.Core.Logic.{◌≢◌, ◌↔◌, ◌⊎◌, inl, inr}
pub use mathlib.Core.Bool.{Bool, true, false, not, ◌&&◌, ◌||◌}
pub use mathlib.Core.Option.{Option, none, some}
pub use mathlib.Core.List.{List, [], ◌∷◌, ◌++◌, map}
pub use native.Mathlib.Omega.{arith}
unfoldable pub use native.Mathlib.Decide.{dec_lt, ℕ_discrete}
