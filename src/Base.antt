-- ===== src/Base.antt =====
-- Names and lemmas that every component uses: Boolean tests on numbers, C arrays as functions,
-- lists measured by native numbers, and C `int` values as 32-bit patterns.
mod Tests
mod Lists
mod Arrays
mod Ints
mod Options
mod Sums
pub use Tests.*
pub use Lists.*
pub use Arrays.*
pub use Ints.*
pub use Options.*
pub use Sums.*
pub use Prim.Native.Nat.{ℕ, zero, suc, ◌+◌, ◌-◌, ◌*◌, ◌/◌, ◌%◌, ◌^◌, ◌≤◌, ◌<◌, min}
pub use mathlib.Core.Path.{◌≡◌, refl, sym, ap, ap₂, ◌∙◌, subst}
pub use mathlib.Core.Logic.{◌≢◌, ◌⊎◌, inl, inr}
pub use mathlib.Core.Bool.{Bool, true, false, ◌&&◌, ◌||◌, not}
pub use mathlib.Core.Option.{Option, none, some}
pub use mathlib.Core.List.{List, [], ◌∷◌, ◌++◌}
pub use native.Mathlib.Omega.{arith}
