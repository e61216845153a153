-- ===== src/Common.antt =====
-- The names that every module shares: the libraries', passed on, and the helpers of the children
-- (Boolean tests, lists measured by native numbers, C integers, the option monad).
mod Tests
mod Lists
mod Ints
mod Fallible
pub mod State
pub mod Atoi
pub mod Decimal
pub mod Strtol
pub mod Text
pub mod Strcat
pub mod Family
pub mod Htons
pub use Tests.*
pub use Lists.*
pub use Ints.*
pub use Fallible.*
pub use Prim.Native.Nat.{ℕ, zero, suc, ◌+◌, ◌-◌, ◌*◌, ◌/◌, ◌%◌, ◌^◌, ◌≤◌, ◌<◌}
pub use mathlib.Core.Path.{◌≡◌, refl, sym, ap, ap₂, ◌∙◌, ◌≡⟨◌⟩◌, ◌∎}
pub use mathlib.Core.Logic.{◌≢◌, ◌↔◌, ◌⊎◌, inl, inr}
pub use mathlib.Core.Bool.{Bool, true, false, not, ◌&&◌, ◌||◌}
pub use mathlib.Core.Option.{Option, none, some}
pub use mathlib.Core.List.{List, [], ◌∷◌, ◌++◌, map}
pub use native.Mathlib.Omega.{arith}
unfoldable pub use native.Mathlib.Decide.{dec_lt, ℕ_discrete}
