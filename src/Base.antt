-- ===== src/Base.antt =====
-- The names that every part shares: the libraries', passed on, and those of the children `Tests`,
-- `Lists` and `Keys`. The children `Int`, `Word`, `GoTime`, `Dict`, `Search`, `Sort`, `Text`,
-- `Contains`, `Decimal` and `Outcome` build on them and are used by their own names.
mod Tests
mod Lists
mod Keys
pub mod Int
pub mod Word
pub mod GoTime
pub mod Dict
pub mod Search
pub mod Sort
pub mod Text
pub mod Contains
pub mod Decimal
pub mod Outcome
pub use Tests.*
pub use Lists.*
pub use Keys.*
pub use Prim.Native.Nat.{ℕ, zero, suc, ◌+◌, ◌-◌, ◌*◌, ◌/◌, ◌%◌, ◌^◌, ◌≤◌, ◌<◌}
pub use Prim.Native.String.{String}
pub use mathlib.Core.Path.{◌≡◌, refl, sym, ap, ◌∙◌}
pub use mathlib.Core.Logic.{◌≢◌, ◌↔◌, ◌⊎◌, inl, inr}
pub use mathlib.Core.Bool.{Bool, true, false, not, ◌&&◌, ◌||◌}
pub use mathlib.Core.Option.{Option, none, some}
pub use mathlib.Core.List.{List, [], ◌∷◌, ◌++◌, map}
pub use mathlib.Core.List.{append-nil, append_assoc}
pub use native.Mathlib.Omega.{arith}
unfoldable pub use native.Mathlib.Decide.{ℕ_discrete}
