-- ===== src/Prelude/Decimal.antt =====
-- Decimal text of numbers: `strconv.FormatInt` and the verbs `%d` and `%03d`.
use Prim.Native.Nat.{ℕ, zero, suc, ◌/◌, ◌%◌}
use Prim.Native.String.{String}
use mathlib.Core.List.{List, [], ◌∷◌}
use kubeguard.Prelude.Tests.{ltb, if◌then◌else◌}
use kubeguard.Prelude.Text.{cat}
use kubeguard.Prelude.Int.{ℤ, pos, negsuc}

digit_at : List String → ℕ → String
digit_at [] d = ""
digit_at (s ∷ ss) zero = s
digit_at (s ∷ ss) (suc d) = digit_at ss d

digit : ℕ → String
unfolding digit_at
digit = digit_at ("0" ∷ "1" ∷ "2" ∷ "3" ∷ "4" ∷ "5" ∷ "6" ∷ "7" ∷ "8" ∷ "9" ∷ [])

-- The digits of `n` before `acc`; the fuel `suc n` is more than the digits that there are.
digits_before : ℕ → ℕ → List String → List String
digits_before zero n acc = acc
digits_before (suc f) n acc =
    let more = digits_before f (n / 10) (digit (n % 10) ∷ acc) in
    if ltb n 10 then digit n ∷ acc else more

unfoldable pub decimal : ℕ → String
unfolding cat digit digits_before
decimal n = cat (digits_before (suc n) n [])

unfoldable pub format_int : ℤ → String
unfolding decimal
format_int (pos n) = decimal n
format_int (negsuc n) = cat ("-" ∷ decimal (suc n) ∷ [])

-- `%03d`
unfoldable pub decimal3 : ℕ → String
unfolding decimal
decimal3 n =
    if ltb n 10
    then cat ("00" ∷ decimal n ∷ [])
    else if ltb n 100
    then cat ("0" ∷ decimal n ∷ [])
    else decimal n
