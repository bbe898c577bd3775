-- ===== src/Prelude/Scan.antt =====
-- Go's tests on the inside of strings, which walk the characters.
use Prim.Native.Nat.{ℕ, ◌-◌}
use Prim.Native.Char.{code}
use Prim.Native.String.{String}
use mathlib.Core.Bool.{Bool, true, false, ◌&&◌, ◌||◌}
use mathlib.Core.Option.{Option, none, some}
use kubeguard.Prelude.Tests.{leb, nat_eq, if◌then◌else◌}

-- `strings.HasPrefix(s, p)`
unfoldable pub has_prefix : String → String → Bool
has_prefix String.[] s = true
has_prefix (String.◌∷◌ c p) String.[] = false
has_prefix (String.◌∷◌ c p) (String.◌∷◌ d s) = nat_eq (code c) (code d) && has_prefix p s

-- `strings.Contains(s, p)`
unfoldable pub contains : String → String → Bool
unfolding has_prefix
contains p String.[] = has_prefix p ""
contains p (String.◌∷◌ c s) = has_prefix p (String.◌∷◌ c s) || contains p s

-- `s[strings.LastIndex(s, c)+1:]`, where the character `c` occurs.
unfoldable pub after_last : ℕ → String → Option String
after_last c String.[] = none
after_last c (String.◌∷◌ d s) = elim (after_last c s) [
  | some t ↦ some t
  | none ↦ if nat_eq (code d) c then some s else none
]

-- `s[:strings.Index(s, c)]`, where the character `c` occurs.
unfoldable pub before_first : ℕ → String → Option String
before_first c String.[] = none
before_first c (String.◌∷◌ d s) =
    let later : Option String = elim (before_first c s) [
      | none ↦ none
      | some t ↦ some (String.◌∷◌ d t)
    ] in
    if nat_eq (code d) c then some "" else later

-- The upper case of a character, wherever that is an ASCII letter: besides a to z, the dotless i
-- and the long s have one.
abbrev pub upper : ℕ → ℕ
upper c =
    if leb b'a' c && leb c b'z'
    then c - 32
    else if nat_eq c 0x131
    then b'I'
    else if nat_eq c 0x17f
    then b'S'
    else c

-- `strings.ToUpper(s) == t`, for a text `t` of ASCII characters.
unfoldable pub upper_is : String → String → Bool
upper_is String.[] String.[] = true
upper_is (String.◌∷◌ c s) String.[] = false
upper_is String.[] (String.◌∷◌ d t) = false
upper_is (String.◌∷◌ c s) (String.◌∷◌ d t) = nat_eq (upper (code c)) (code d) && upper_is s t
