-- ===== src/Prelude.antt =====
-- The names that the other modules share: the libraries', passed on, and those of the children.
mod Tests
mod Lists
mod Results
pub mod Calls
mod ByteStrings
mod Order
mod Search
mod Int
mod Sort
mod Perms
pub use Tests.*
pub use Lists.*
pub use Results.*
unfoldable pub use ByteStrings.{be_value, be_bytes}
pub use ByteStrings.{
  Bytes, codes, IsByte, length-be_bytes, be_value-be_bytes_two, be_value-be_bytes_four,
}
unfoldable pub use Order.{lt_wf}
unfoldable pub use Search.{search}
pub use Search.{Splits, IsMonotone, search-Splits}
pub use Int.{ℤ, pos, negsuc, pos_part, neg_part, ◌≤ℤ◌, ltb_ℤ, int_laws, eq_of_parts}
unfoldable pub use Int.{◌+ℤ◌, ◌-ℤ◌, ◌*ℤ◌}
unfoldable pub use Sort.{insertion_sort}
pub use Sort.{IsSorted, insertion_sort-IsSorted, insertion_sort-perm, length-insertion_sort}
pub use Perms.*
pub use Prim.Native.Nat.{ℕ, zero, suc, ◌+◌, ◌-◌, ◌*◌, ◌/◌, ◌%◌, ◌^◌, ◌≤◌, ◌<◌, min}
pub use mathlib.Core.Path.{◌≡◌, refl, sym, ap, ◌∙◌, subst}
pub use mathlib.Core.Logic.{◌≢◌, ◌↔◌, ◌⊎◌, inl, inr}
pub use mathlib.Core.Bool.{Bool, true, false, not, ◌&&◌, ◌||◌}
pub use mathlib.Core.Option.{Option, none, some}
pub use mathlib.Core.List.{List, [], ◌∷◌, ◌++◌, map, foldl, Mem, Perm, append-nil, append_assoc}
pub use native.Mathlib.Omega.{arith}
