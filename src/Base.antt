-- ===== src/Base.antt =====
-- The names that the other modules share: the libraries', passed on, and the lemmas on lists,
-- tests and byte strings of the child modules.
mod Tests
mod Lists
mod Int
mod ByteStrings
mod Decimal
pub mod Order
pub use Tests.*
pub use Lists.*
pub use Int.*
unfoldable pub use ByteStrings.*
unfoldable pub use Decimal.*
pub use Prim.Native.Nat.{ℕ, zero, suc, ◌+◌, ◌-◌, ◌*◌, ◌/◌, ◌%◌, ◌^◌, ◌≤◌, ◌<◌}
pub use Prim.Native.String.{String}
pub use mathlib.Core.Path.{◌≡◌, refl, sym, ap, subst, subst₂, ◌∙◌}
pub use mathlib.Core.Logic.{◌≢◌, ◌↔◌, ◌⊎◌, inl, inr}
pub use mathlib.Core.Bool.{Bool, true, false, ◌&&◌, ◌||◌, not}
pub use mathlib.Core.Option.{Option, none, some}
pub use mathlib.Core.List.{List, [], ◌∷◌, ◌++◌, map, append_cancel_left, append_cancel_right}
pub use native.Mathlib.Omega.{arith}
