-- ===== src/Common.antt =====
-- The names that the other modules share: the libraries', passed on, and those of the children.
mod Tests
mod Lists
mod Text
mod Assoc
mod Order
mod Tables
mod Bits
mod Int
mod Hash
mod Decimal
pub use Tests.*
pub use Lists.*
pub use Text.*
unfoldable pub use Assoc.{find, erase, insert, total}
pub use Assoc.*
unfoldable pub use Order.{lt_wf}
unfoldable pub use Tables.{passes_below}
pub use Tables.{passes_below_lem}
pub use Bits.*
pub use Int.*
unfoldable pub use Hash.{fnv1a_from}
pub use Hash.*
unfoldable pub use Decimal.{decimal_value, to_string}
pub use Decimal.*
pub use Prim.Native.Nat.{
  ℕ, zero, suc, ◌+◌, ◌-◌, ◌*◌, ◌/◌, ◌%◌, ◌^◌, ◌≤◌, ◌<◌, max, min, bit_and, bit_or, bit_xor,
}
pub use mathlib.Core.Path.{◌≡◌, refl, sym, ap, ◌∙◌}
pub use mathlib.Core.Logic.{◌≢◌, ◌↔◌, ◌⊎◌, inl, inr}
pub use mathlib.Core.Bool.{Bool, true, false, not, ◌&&◌, ◌||◌}
pub use mathlib.Core.Option.{Option, none, some}
pub use mathlib.Core.List.{List, [], ◌∷◌, ◌++◌, map, append_assoc, append-nil, reverse}
pub use native.Mathlib.Omega.{arith}
