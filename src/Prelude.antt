-- ===== src/Prelude.antt =====
-- Names that every component shares: the libraries', passed on, tests on numbers, lists measured
-- by native numbers, signed integers, Go strings as byte lists, and results with errors.
mod Tests
mod Lists
mod Slices
pub mod Int
pub mod Text
pub mod Search
pub mod Hex
pub mod Scan
pub mod Assoc
pub mod Unique
pub mod Result
pub mod Partial
pub use Tests.*
pub use Lists.*
pub use Slices.*
pub use Prim.Native.Nat.{ℕ, zero, suc, ◌+◌, ◌-◌, ◌*◌, ◌/◌, ◌%◌, ◌^◌, ◌≤◌, ◌<◌, min}
pub use mathlib.Core.Path.{◌≡◌, refl, sym, ap, ◌∙◌}
pub use mathlib.Core.Logic.{◌≢◌, ◌↔◌, ◌⊎◌, inl, inr}
pub use mathlib.Core.Bool.{Bool, true, false, ◌&&◌, ◌||◌, not}
pub use mathlib.Core.Option.{Option, none, some}
pub use mathlib.Core.List.{List, [], ◌∷◌, ◌++◌, map, append_assoc, append-nil}
pub use native.Mathlib.Omega.{arith}
