-- ===== src/Prelude.antt =====
-- The names that the other modules share: the libraries', passed on, and those of the children.
pub mod Tests
pub mod Lists
pub mod Int
pub mod Text
pub mod Pairs
pub mod Sort
pub mod Order
pub mod Decimal
pub mod Scan
pub mod Ranges
pub mod Maps
pub use Prim.Native.Nat.{ℕ, zero, suc, ◌+◌, ◌-◌, ◌*◌, ◌≤◌, ◌<◌, min}
pub use Prim.Native.String.{String}
pub use mathlib.Core.Path.{◌≡◌, refl, sym, ap, ◌∙◌}
pub use mathlib.Core.Logic.{◌≢◌, ◌↔◌, ◌⊎◌, inl, inr}
pub use mathlib.Core.Bool.{Bool, true, false, not, ◌&&◌, ◌||◌}
pub use mathlib.Core.Option.{Option, none, some}
pub use mathlib.Core.List.{List, [], ◌∷◌, ◌++◌, map, Perm}
pub use native.Mathlib.Omega.{arith}
pub use text.Mathlib.Text.{◌==◌}
pub use text.Mathlib.TextEquality.{eq_iff}
pub use text.Mathlib.TextPositions.{eq_refl}
pub use Tests.{
  ltb, leb, nat_eq, if◌then◌else◌, ltb→lt, leb→le, Bool-cases, Option-cases, false-true, none-some,
  some_inj,
}
unfoldable pub use Lists.{length, any, all, filter, find, flat_map}
pub use Lists.{
  All, Any, In, length-append, length-map, All-append, Any-append_left, Any-append_right,
  Any-append_cases, All-imp, Any-imp, Any-and_All, Any-witness, All-In, Any-In, All-of_In, any-true,
  true-any, any_iff, any-false, all_iff, All-filter, nonempty, nonempty-Any, Any-nonempty, Bool_ext,
  find-some, find-none, find-is_some, Any-filter, filter-Any, filter-All, Any-map, map-Any,
  Any-flat_map, flat_map-Any, All-flat_map,
}
pub use Pairs.{IsSelection, filter-IsSelection, filter-filter, AllPairs, map-AllPairs}
unfoldable pub use Scan.{has_prefix, contains, after_last, before_first, upper_is}
pub use Int.{ℤ, pos, negsuc, is_zero, is_positive}
unfoldable pub use Text.{cat, join}
unfoldable pub use Decimal.{decimal, format_int, decimal3}
pub use Ranges.{MapRange, sort_strings-perm, range_sorted-irrel}
unfoldable pub use Ranges.{sort_strings, range_sorted, set_add}
pub use Text.{str_lt}
unfoldable pub use Sort.{sort_stable}
pub use Sort.{
  length-sort_stable, sort_stable-perm, sort_stable-Any, sort_stable-All, IsSorted, IsWeakOrder,
  sort_stable-IsSorted, Ordered, IsSorted-Ordered,
}
pub use Order.{
  gtb, IsKeyOrder, str-IsKeyOrder, gtb-IsKeyOrder, ltb-IsKeyOrder, last-IsWeakOrder,
  next-IsWeakOrder, not_next,
}
pub use Maps.{
  Dict, get-set_same, get-set_other, get-delete_same, get-delete_other, get-set_cases,
  get-delete_cases, get-All,
}
unfoldable pub use Maps.{get, set, delete, keys}
