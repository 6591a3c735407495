-- ===== src/Common.antt =====
-- The names that the other modules share: the libraries', passed on, and those of the children.
mod Tests
mod Lists
mod Int
mod Classes
mod Decimal
mod Prefix
pub mod Assoc
pub mod Members
pub use Tests.*
pub use Lists.*
unfoldable pub use Int.*
pub use Classes.*
pub use Decimal.{◌<>◌}
unfoldable pub use Prefix.{after_prefix, has_prefix, trim_prefix}
pub use Prefix.{after_prefix-append, append-after_prefix}
unfoldable pub use Decimal.{decimal, show_int32, show_int, value}
pub use Decimal.{value-decimal}
pub use Prim.Native.Nat.{ℕ, zero, suc, ◌+◌, ◌-◌, ◌*◌, ◌/◌, ◌%◌, ◌^◌, ◌≤◌, ◌<◌}
pub use Prim.Native.String.{String}
pub use mathlib.Core.Path.{◌≡◌, refl, sym, ap, ◌∙◌}
pub use mathlib.Core.Logic.{◌≢◌, ◌↔◌, ◌⊎◌, inl, inr}
pub use mathlib.Core.Bool.{Bool, true, false, not, ◌&&◌, ◌||◌}
pub use mathlib.Core.Option.{Option, none, some}
pub use mathlib.Core.List.{List, [], ◌∷◌, ◌++◌, map}
pub use native.Mathlib.Omega.{arith}
pub use text.Mathlib.TextEquality.{eq_iff}
