-- ===== src/Prelude.antt =====
-- The names the other modules share: the libraries' and those of the children.
pub mod Tests
pub mod Lists
pub mod Texts
pub mod Time
pub mod Bits
pub mod Chars
pub mod Splits
pub mod Joins
pub use Tests.*
pub use Lists.*
pub use Texts.*
pub use Time.*
pub use Prim.Native.Nat.{ℕ, zero, suc, ◌+◌, ◌-◌, ◌*◌, ◌/◌, ◌%◌, ◌^◌, ◌≤◌, ◌<◌, min, max}
pub use mathlib.Core.Path.{◌≡◌, refl, sym, ap, ◌∙◌}
pub use mathlib.Core.Logic.{◌≢◌, ◌↔◌, ◌⊎◌, inl, inr}
pub use mathlib.Core.Bool.{Bool, true, false, not, ◌&&◌, ◌||◌}
pub use mathlib.Core.Option.{Option, none, some}
pub use mathlib.Core.List.{List, [], ◌∷◌, ◌++◌, map}
pub use native.Mathlib.Omega.{arith}
