-- ===== src/Base.antt =====
-- The names that every module of the development shares: those of the libraries, passed on, the
-- Boolean tests on numbers, lists under native indices, and signed integers.
mod Tests
mod Lists
mod Bytes
pub mod Tabulate
pub mod Int
pub use Tests.*
pub use Lists.*
pub use Bytes.{codes}
unfoldable pub use Bytes.{same_bytes}
pub use Prim.Native.Nat.{ℕ, zero, suc, ◌+◌, ◌-◌, ◌*◌, ◌/◌, ◌%◌, ◌^◌, ◌≤◌, ◌<◌, min, max}
pub use mathlib.Core.Path.{◌≡◌, refl, sym, ap, ◌∙◌, subst}
pub use mathlib.Core.Logic.{◌≢◌, ◌↔◌, ◌⊎◌, inl, inr}
pub use mathlib.Core.Bool.{Bool, true, false, not, ◌&&◌, ◌||◌}
pub use mathlib.Core.Option.{Option, none, some}
pub use mathlib.Core.List.{List, [], ◌∷◌, ◌++◌, map}
pub use native.Mathlib.Omega.{arith}
