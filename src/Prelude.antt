-- ===== src/Prelude.antt =====
-- The names that every module shares: the libraries' and those of the children below.
pub mod Tests
pub mod Lists
pub mod Classes
pub mod Text
pub mod Tables
pub mod Fallible
pub mod Assoc
pub mod Maybe
pub use Tests.*
pub use Lists.*
unfoldable pub use Tables.*
unfoldable pub use Text.*
pub use Classes.*
pub use Fallible.*
pub use Prim.Native.Nat.{ℕ, zero, suc, ◌+◌, ◌-◌, ◌*◌, ◌/◌, ◌%◌, ◌^◌, ◌≤◌, ◌<◌, min}
pub use mathlib.Core.Path.{◌≡◌, refl, sym, ap, ap₂, subst, ◌∙◌}
pub use mathlib.Core.Logic.{◌≢◌, ◌↔◌, ◌⊎◌, inl, inr}
pub use mathlib.Core.Bool.{Bool, true, false, not, ◌&&◌, ◌||◌}
pub use mathlib.Core.Option.{Option, none, some}
pub use mathlib.Core.List.{List, [], ◌∷◌, ◌++◌, map}
pub use native.Mathlib.Omega.{arith}
