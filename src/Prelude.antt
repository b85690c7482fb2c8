-- ===== src/Prelude.antt =====
-- The names that the other modules share: those of the libraries, passed on, the Boolean tests and
-- list operations over the native numbers, and the outcome of a C++ member function.
mod Tests
mod Lists
mod Size
mod Int
mod Split
mod Outcomes
mod Text
mod Weights
pub use Tests.*
pub use Lists.*
pub use Size.*
pub use Int.{ℤ, pos, negsuc, IsInt32, to_uint32-lt, to_int32-to_uint32}
unfoldable pub use Int.{to_uint32, to_int32}
pub use Split.*
pub use Outcomes.*
pub use Text.*
pub use Weights.*
pub use Prim.Native.Nat.{ℕ, zero, suc, ◌+◌, ◌-◌, ◌*◌, ◌/◌, ◌%◌, ◌^◌, ◌≤◌, ◌<◌, min}
pub use mathlib.Core.Path.{◌≡◌, refl, sym, ap, ap₂, subst, ◌∙◌}
pub use mathlib.Core.Logic.{◌≢◌, ◌⊎◌, inl, inr}
pub use mathlib.Core.Bool.{Bool, true, false, not, ◌&&◌, ◌||◌}
pub use mathlib.Core.Option.{Option, none, some}
pub use mathlib.Core.List.{List, [], ◌∷◌, ◌++◌, map, append-nil, append_assoc}
pub use native.Mathlib.Omega.{arith}
