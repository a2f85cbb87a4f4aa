-- ===== src/Prelude.antt =====
-- Shared names: what the library gives, Python's tests and containers, and results of calls that
-- may raise.
mod Tests
mod Lists
mod Errors
mod Sorting
pub mod Dict
pub mod Window
pub mod Text
pub mod Json
unfoldable pub use Tests.*
unfoldable pub use Lists.*
pub use Errors.*
pub use Sorting.*
pub use Prim.Native.Nat.{ℕ, zero, suc, ◌+◌, ◌-◌, ◌*◌, ◌≤◌, ◌<◌}
pub use Prim.Native.String.{String}
pub use mathlib.Core.Path.{◌≡◌, refl, sym, ap, subst, ◌∙◌}
pub use mathlib.Core.Logic.{◌≢◌, ◌↔◌, ◌⊎◌, inl, inr}
pub use mathlib.Core.Bool.{Bool, true, false, not, ◌&&◌, ◌||◌}
pub use mathlib.Core.Option.{Option, none, some}
pub use mathlib.Core.List.{List, [], ◌∷◌, ◌++◌, map}
pub use native.Mathlib.Omega.{arith}
