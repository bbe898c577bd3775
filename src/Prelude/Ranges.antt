-- ===== src/Prelude/Ranges.antt =====
-- `for k := range m` over a Go map, whose order the language leaves open, and `sort.Strings`, after
-- which the order does not matter.
use Prim.Native.String.{String}
use mathlib.Core.Path.{◌≡◌, refl, sym, ◌∙◌}
use mathlib.Core.Logic.{∥∥₁_elim}
use mathlib.Core.List.{List, [], ◌∷◌, Perm, Permᴰ}
use native.Mathlib.Omega.{arith}
use text.Mathlib.Text.{◌==◌}
use text.Mathlib.TextEquality.{IsScalar-prop}
use kubeguard.Prelude.Tests.{if◌then◌else◌}
use kubeguard.Prelude.Lists.{any}
use kubeguard.Prelude.Text.{str_lt, str_lt_irrefl, str_lt_trans, str_lt_connex}
use kubeguard.Prelude.Sort.{insert, sort_stable}

-- The order in which one run of the program goes through the keys of a map.
pub record MapRange : Type 0 where
  pub range : List String → List String
  pub range_perm : (keys : List String) → Perm (range keys) keys

-- `m[k] = struct{}{}`: the keys, each once, in the order of insertion.
unfoldable pub set_add : String → List String → List String
unfolding any
set_add k keys = if any (λ j. j == k) keys then keys else k ∷ keys

-- `sort.Strings`
unfoldable pub sort_strings : List String → List String
sort_strings = sort_stable str_lt

-- The keys of a map, ranged over and then sorted.
unfoldable pub range_sorted : MapRange → List String → List String
unfolding sort_strings
range_sorted m keys = sort_strings (m.range keys)

insert_comm :
    (a b : String) (l : List String)
    → insert str_lt a (insert str_lt b l) ≡ insert str_lt b (insert str_lt a l)
unfolding insert
insert_comm a b [] = ground (arith, str_lt_connex a b, str_lt_trans a b a, str_lt_irrefl a)
insert_comm a b (y ∷ ys) = ground (
  arith,
  insert_comm a b ys,
  str_lt_connex a b,
  str_lt_trans a b a,
  str_lt_irrefl a,
  str_lt_trans y a b,
  str_lt_trans y b a,
  str_lt_connex y a,
  str_lt_connex y b,
)

sort_strings-Permᴰ : {xs ys : List String} → Permᴰ xs ys → sort_strings xs ≡ sort_strings ys
unfolding sort_strings sort_stable
sort_strings-Permᴰ Permᴰ.nil = refl
sort_strings-Permᴰ (Permᴰ.cons e p) = cc (e, sort_strings-Permᴰ p)
sort_strings-Permᴰ (Permᴰ.swap {a} {b} {l = l} e f) =
    cc (e, f, insert_comm a b (sort_stable str_lt l))
sort_strings-Permᴰ (Permᴰ.trans p q) = sort_strings-Permᴰ p ∙ sort_strings-Permᴰ q

strings_set : IsSet (List String)
strings_set = hlevel IsScalar-prop

-- Sorting forgets the order of its input.
pub sort_strings-perm : (xs ys : List String) → Perm xs ys → sort_strings xs ≡ sort_strings ys
sort_strings-perm xs ys p = ∥∥₁_elim p (strings_set _ _) (λ q. sort_strings-Permᴰ q)

-- So the order of the map does not show.
pub range_sorted-irrel :
    (m n : MapRange) (keys : List String) → range_sorted m keys ≡ range_sorted n keys
unfolding range_sorted
range_sorted-irrel m n keys =
    sort_strings-perm (m.range keys) keys (m.range_perm keys)
    ∙ sym (sort_strings-perm (n.range keys) keys (n.range_perm keys))
