-- ===== src/Waiver/Load.antt =====
-- `Parse` of internal/waiver/waiver.go: the validation of a decoded waiver file.
use kubeguard.Prelude.{
  ℕ, suc, String, List, [], ◌∷◌, Option, none, some, ◌==◌, ◌≡◌, refl, if◌then◌else◌,
}
use kubeguard.Waiver.{Selector, Entry}

-- An entry as YAML gives it.
pub record RawEntry : Type 0 where
  pub id : String
  pub resource : Option Selector
  pub justification : String
  pub expires : String

-- The errors, with the index of the entry.
pub data ParseError : Type 0 where
  bad_yaml : ParseError
  missing_id missing_justification missing_expires bad_expires : ℕ → ParseError

pub data Parsed (A : Type 0) : Type 0 where
  err : ParseError → Parsed A
  ok : A → Parsed A

infixl 5 ◌>>=◌
abbrev pub ◌>>=◌ : {X Y : Type 0} → Parsed X → (X → Parsed Y) → Parsed Y
err failure >>= next = err failure
ok x >>= next = next x

-- A step that succeeds had a first result, and went on from it.
pub bind_inversion :
    {X Y : Type 0} (y : Y) (next : X → Parsed Y) (first : Parsed X)
    → (first >>= next) ≡ ok y
    → (x : X) × (next x ≡ ok y) × (first ≡ ok x)
bind_inversion y next (err failure) h = cc
bind_inversion y next (ok x) h = (x, h, refl)

-- `parse_time` is `time.Parse(time.RFC3339, …)`.
module _ (parse_time : String → Option ℕ) where
  unfoldable pub validate : ℕ → RawEntry → Parsed Entry
  validate i e =
      if e.id == ""
      then err (missing_id i)
      else if e.justification == ""
      then err (missing_justification i)
      else if e.expires == ""
      then err (missing_expires i)
      else elim (parse_time e.expires) [
        | none ↦ err (bad_expires i)
        | some t ↦ ok (record {
          id = e.id;
          resource = e.resource;
          justification = e.justification;
          expires = e.expires;
          expires_at = t;
        })
      ]

  -- The loop, from index `i` on.
  unfoldable pub validate_all : ℕ → List RawEntry → Parsed (List Entry)
  validate_all i [] = ok []
  validate_all i (e ∷ es) = do x ← validate i e; xs ← validate_all (suc i) es; ok (x ∷ xs)

  -- `none` is a document that strict YAML refuses.
  unfoldable pub parse : Option (List RawEntry) → Parsed (List Entry)
  parse none = err bad_yaml
  parse (some raw) = validate_all 0 raw

abbrev pub to_raw : Entry → RawEntry
to_raw e = record {
  id = e.id;
  resource = e.resource;
  justification = e.justification;
  expires = e.expires;
}
