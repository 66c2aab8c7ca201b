-- ===== src/Prelude.antt =====
-- The names that the other modules share: the libraries', passed on, and those of the children.
mod Tests
mod Lists
mod Tables
mod Strings
mod Int
pub mod Errors
pub mod Tasks
pub use Tests.*
pub use Lists.*
unfoldable pub use Tables.{all_below}
pub use Tables.{all_below_sound}
pub use Int.{ℤ, pos, negsuc, shr, low_bits, to_int32}
unfoldable pub use Int.{◌+ℤ◌}
pub use Strings.{Text, Bytes, codes, text_eq, text_eq_iff, text_eq_refl, text_eq_ne}
pub use Errors.{
  Error, message, type_error, range_error, operation_error, syntax_error, Result, ok, err,
}
pub use Prim.Native.Nat.{ℕ, zero, suc, ◌+◌, ◌-◌, ◌*◌, ◌/◌, ◌%◌, ◌^◌, ◌≤◌, ◌<◌}
pub use mathlib.Core.Path.{◌≡◌, refl, sym, ap, ◌∙◌}
pub use mathlib.Core.Logic.{◌≢◌, ◌↔◌, ◌⊎◌, inl, inr}
pub use mathlib.Core.Bool.{Bool, true, false, not, ◌&&◌, ◌||◌}
pub use mathlib.Core.Option.{Option, none, some}
pub use mathlib.Core.List.{List, [], ◌∷◌, ◌++◌, map}
pub use native.Mathlib.Omega.{arith}
