-- ===== src/Dashboard/Paginate.antt =====
-- The pages of a listing: `paginate` and `queryInt` of internal/dashboard/api.go, and the same lines
-- in `ListScans` of internal/dashboard/memstore.go. A Go `int` has 64 bits.
use kubeguard.Prelude.{
  ℕ, zero, suc, ◌+◌, ◌-◌, ◌*◌, min, ℤ, pos, negsuc, String, List, [], ◌∷◌, Option, none, some, ◌==◌,
  ltb, leb, if◌then◌else◌, length,
}

-- `math.MaxInt`, 2 ^ 63 - 1
abbrev pub int_max : ℕ
int_max = 9223372036854775807

-- The sum of two `int`s from 0 on, which wraps around below 0.
unfoldable pub wrap_add : ℕ → ℕ → ℤ
wrap_add a b = if leb (a + b) int_max then pos (a + b) else negsuc (2 * int_max + 1 - (a + b))

-- `end`, after the clamp to the length `n`.
unfoldable pub end_of : ℤ → ℕ → ℕ → ℤ
unfolding wrap_add
end_of (negsuc l) offset n = pos n
end_of (pos zero) offset n = pos n
end_of (pos (suc l)) offset n = elim (wrap_add offset (suc l)) [
  | pos e ↦ if ltb n e then pos n else pos e
  | negsuc e ↦ negsuc e
]

module _ {A : Type 0} where
  unfoldable pub take : ℕ → List A → List A
  take n [] = []
  take zero (x ∷ xs) = []
  take (suc n) (x ∷ xs) = x ∷ take n xs

  unfoldable pub drop : ℕ → List A → List A
  drop n [] = []
  drop zero (x ∷ xs) = x ∷ xs
  drop (suc n) (x ∷ xs) = drop n xs

  -- `f[offset:end]`; `none` is the panic on bounds out of range.
  unfoldable pub slice : List A → ℕ → ℤ → Option (List A)
  unfolding take drop
  slice f offset (negsuc e) = none
  slice f offset (pos e) = if leb offset e then some (take (e - offset) (drop offset f)) else none

  -- With a negative offset, the slice panics whatever `end` is.
  unfoldable pub paginate : List A → ℤ → ℤ → Option (List A)
  unfolding slice end_of
  paginate f limit (negsuc o) = none
  paginate f limit (pos o) =
      let offset = min o (length f) in slice f offset (end_of limit offset (length f))

-- `queryInt` of the text of the parameter, `""` where the query has none; `atoi` is `strconv.Atoi`.
unfoldable pub query_int : (String → Option ℤ) → String → ℤ → ℤ
query_int atoi v default =
    if v == "" then default else elim (atoi v) [ none ↦ default | some n ↦ n ]
