-- ===== src/Prelude/Text.antt =====
-- Go's strings: concatenation, and the order of `<`, which compares bytes. The order of UTF-8
-- bytes is the order of code points, by which `compare` goes.
use Prim.Native.Nat.{ℕ, Ordering, compare as compare_nat}
use Prim.Native.Char.{code}
use Prim.Native.String
use Prim.Native.String.compare
use Prim.Native.String.{String, compare, then}
use mathlib.Core.Path.{◌≡◌, refl, ap, ◌∙◌, sym}
use mathlib.Core.Logic.{◌⊎◌, inl, inr}
use mathlib.Core.Bool.{Bool, true, false}
use mathlib.Core.List.{List, [], ◌∷◌}
use native.Mathlib.Omega.{arith}
use text.Mathlib.Text.{is_lt}
use text.Mathlib.TextEquality.{path_by_compare}
use text.Mathlib.TextPositions.{compare_refl}

-- The pieces joined with no separator: `a + b + c`, and `Sprintf` with `%s` alone.
unfoldable pub cat : List String → String
cat [] = ""
cat (s ∷ ss) = String.◌++◌ s (cat ss)

-- `a < b` on strings.
abbrev pub str_lt : String → String → Bool
str_lt a b = is_lt (compare a b)

abbrev flip : Ordering → Ordering
flip Ordering.lt = Ordering.gt
flip Ordering.eq = Ordering.eq
flip Ordering.gt = Ordering.lt

flip-then : (o p : Ordering) → flip (then o p) ≡ then (flip o) (flip p)
flip-then Ordering.lt p = refl
flip-then Ordering.eq p = refl
flip-then Ordering.gt p = refl

compare_nat-flip : (a b : ℕ) → compare_nat b a ≡ flip (compare_nat a b)
compare_nat-flip a b = ground arith

-- Comparing the other way round turns the answer round.
pub compare-flip : (s t : String) → compare t s ≡ flip (compare s t)
compare-flip String.[] String.[] = rw compare.nil-nil
compare-flip String.[] (String.◌∷◌ d t) = rw (compare.cons-nil d t, compare.nil-cons d t)
compare-flip (String.◌∷◌ c s) String.[] = rw (compare.nil-cons c s, compare.cons-nil c s)
compare-flip (String.◌∷◌ c s) (String.◌∷◌ d t) =
    compare.cons-cons d c t s
    ∙ rw (compare_nat-flip (code c) (code d), compare-flip s t)
        (sym (flip-then (compare_nat (code c) (code d)) (compare s t)))
    ∙ ap flip (sym (compare.cons-cons c d s t))

lt-then :
    (a b c : ℕ) (o p q : Ordering)
    → (o ≡ Ordering.lt → p ≡ Ordering.lt → q ≡ Ordering.lt)
    → then (compare_nat a b) o ≡ Ordering.lt
    → then (compare_nat b c) p ≡ Ordering.lt
    → then (compare_nat a c) q ≡ Ordering.lt
lt-then a b c o p q f h k = ground arith

pub compare-lt_trans :
    (s t u : String)
    → compare s t ≡ Ordering.lt
    → compare t u ≡ Ordering.lt
    → compare s u ≡ Ordering.lt
compare-lt_trans String.[] String.[] u h k = k
compare-lt_trans (String.◌∷◌ c s) String.[] u h k = cc (compare.cons-nil c s)
compare-lt_trans s (String.◌∷◌ d t) String.[] h k = cc (compare.cons-nil d t)
compare-lt_trans String.[] (String.◌∷◌ d t) (String.◌∷◌ e u) h k = compare.nil-cons e u
compare-lt_trans (String.◌∷◌ c s) (String.◌∷◌ d t) (String.◌∷◌ e u) h k =
    compare.cons-cons c e s u
    ∙ lt-then (code c) (code d) (code e) (compare s t) (compare t u) (compare s u)
        (compare-lt_trans s t u) (sym (compare.cons-cons c d s t) ∙ h)
        (sym (compare.cons-cons d e t u) ∙ k)

Ordering-cases : (o : Ordering) → (o ≡ Ordering.lt) ⊎ ((o ≡ Ordering.eq) ⊎ (o ≡ Ordering.gt))
Ordering-cases Ordering.lt = inl refl
Ordering-cases Ordering.eq = inr (inl refl)
Ordering-cases Ordering.gt = inr (inr refl)

pub str_lt_irrefl : (s : String) → str_lt s s ≡ false
str_lt_irrefl s = rw (compare_refl s)

pub str_lt_asymm : (s t : String) → str_lt s t ≡ true → str_lt t s ≡ false
str_lt_asymm s t h = ground (arith, compare-flip s t)

is_lt-true : (o : Ordering) → is_lt o ≡ true → o ≡ Ordering.lt
is_lt-true Ordering.lt h = refl
is_lt-true Ordering.eq h = cc
is_lt-true Ordering.gt h = cc

pub str_lt_trans : (s t u : String) → str_lt s t ≡ true → str_lt t u ≡ true → str_lt s u ≡ true
str_lt_trans s t u h k = ap is_lt (compare-lt_trans s t u (is_lt-true _ h) (is_lt-true _ k))

-- Any two texts are equal, or one comes first.
pub str_lt_connex : (s t : String) → (str_lt s t ≡ true) ⊎ (s ≡ t) ⊎ (str_lt t s ≡ true)
str_lt_connex s t = elim (Ordering-cases (compare s t)) [
  | inl e ↦ inl (ap is_lt e)
  | inr (inl e) ↦ inr (inl (path_by_compare s t e))
  | inr (inr e) ↦ inr (inr (ground (arith, compare-flip s t)))
]

-- `strings.Join`
unfoldable pub join : String → List String → String
unfolding cat
join sep [] = ""
join sep (s ∷ []) = s
join sep (s ∷ t ∷ ss) = cat (s ∷ sep ∷ join sep (t ∷ ss) ∷ [])
