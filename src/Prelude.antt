-- ===== src/Prelude.antt =====
-- The names that the other modules share: library names passed on, Boolean tests, lists measured
-- by native numbers, JavaScript strings, `Map`s and optional values.
mod Tests
mod Lists
mod Strings
pub mod Maps
mod Nullable
mod Results
pub use Tests.*
pub use Lists.*
unfoldable pub use Strings.*
unfoldable pub use Nullable.*
pub use Results.*
pub use Prim.Native.Nat.{ℕ, zero, suc, ◌+◌, ◌-◌, ◌*◌, ◌/◌, ◌%◌, ◌≤◌, ◌<◌, max, min}
pub use Prim.Native.String.{String}
pub use mathlib.Core.Path.{◌≡◌, refl, sym, ap, ◌∙◌}
pub use mathlib.Core.Logic.{◌≢◌, ◌↔◌, ◌⊎◌, inl, inr}
pub use mathlib.Core.Bool.{Bool, true, false, not, ◌&&◌, ◌||◌}
pub use mathlib.Core.Option.{Option, none, some}
pub use mathlib.Core.List.{List, [], ◌∷◌, ◌++◌, map}
pub use native.Mathlib.Omega.{arith}
