-- ===== src/Prelude.antt =====
-- The names that the other modules share: the libraries', passed on, and those of the children.
mod Tests
mod Lists
mod Int
mod Words
mod Signed
pub use Tests.*
pub use Lists.*
pub use Int.{ℤ, pos, negsuc, pos_part, neg_part, sub_ℕ, div_ℤ}
pub use Int.{◌≤ℤ◌, ◌<ℤ◌, ltb_ℤ, leb_ℤ, eqb_ℤ, eqb_ℤ_iff, eq_of_parts, int_laws}
pub use Int.{+ℤ_parts, -ℤ_parts}
unfoldable pub use Int.{◌+ℤ◌, ◌-ℤ◌, ◌*ℤ◌}
pub use Words.{inc32, inc64, add64, sub64, Bytes, bytes_eq_iff}
unfoldable pub use Words.{bytes_eq}
pub use Prim.Native.Nat.{ℕ, zero, suc, ◌+◌, ◌-◌, ◌*◌, ◌/◌, ◌%◌, ◌^◌, ◌≤◌, ◌<◌, min}
pub use mathlib.Core.Path.{◌≡◌, refl, sym, ap, ◌∙◌, subst}
pub use mathlib.Core.Logic.{◌≢◌, ◌↔◌, ◌⊎◌, inl, inr}
pub use mathlib.Core.Bool.{Bool, true, false, not, ◌&&◌, ◌||◌}
pub use mathlib.Core.Option.{Option, none, some}
pub use mathlib.Core.List.{List, [], ◌∷◌, ◌++◌, map, reverse, append_assoc, append-nil}
pub use native.Mathlib.Omega.{arith}
unfoldable pub use Signed.{wrap32, wrap64}
pub use Signed.{wrap32_pos, wrap32_negsuc, wrap64_pos, InInt64, wrap64_fits, wrap64-InInt64}
pub use Signed.{wrap64_cancel, wrap64-add}
pub use native.Mathlib.Nat.{zero-add}
