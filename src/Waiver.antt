-- ===== src/Waiver.antt =====
-- internal/waiver/waiver.go: the file of risk acceptances for the gates.
pub mod Load
pub mod Cover
pub mod Valid
use kubeguard.Prelude.{
  ℕ, String, Bool, true, false, not, ◌&&◌, List, [], ◌∷◌, Option, none, some, ◌==◌, ltb,
  if◌then◌else◌, find,
}
use kubeguard.Api.{Finding, ResourceRef}

-- An empty field of a selector is a wildcard.
pub record Selector : Type 0 where
  pub kind : String
  pub namespace : String
  pub name : String

-- `expires_at` is `expires` parsed, in nanoseconds from the first instant that a `time.Time` holds.
pub record Entry : Type 0 where
  pub id : String
  pub resource : Option Selector
  pub justification : String
  pub expires : String
  pub expires_at : ℕ

-- `s == nil || len(s.entries) == 0`, over a pointer to a set of entries.
unfoldable pub is_empty : Option (List Entry) → Bool
is_empty none = true
is_empty (some []) = true
is_empty (some (e ∷ es)) = false

-- `want != "" && want != got`
abbrev pub differs : String → String → Bool
differs want got = not (want == "") && not (want == got)

unfoldable pub selects : Option Selector → ResourceRef → Bool
selects none r = true
selects (some s) r =
    if differs s.kind r.kind
    then false
    else if differs s.namespace r.namespace
    then false
    else if differs s.name r.name
    then false
    else true

unfoldable pub matches_resource : Entry → ResourceRef → Bool
unfolding selects
matches_resource e r = selects e.resource r

-- The three tests of one round of `Match`.
unfoldable pub covers : Finding → ℕ → Entry → Bool
unfolding matches_resource
covers f now e = e.id == f.id && ltb now e.expires_at && matches_resource e f.resource

unfoldable pub match_entry : Option (List Entry) → Finding → ℕ → Option Entry
unfolding covers find
match_entry none f now = none
match_entry (some entries) f now = find (covers f now) entries

pub record WaivedFinding : Type 0 where
  pub finding : Finding
  pub entry : Entry

pub record Partitioned : Type 0 where
  pub blocking : List Finding
  pub waived : List WaivedFinding

unfoldable pub partition : Option (List Entry) → List Finding → ℕ → Partitioned
unfolding match_entry
partition s [] now = record { blocking = []; waived = [] }
partition s (f ∷ fs) now =
    let rest = partition s fs now in
    elim (match_entry s f now) [
      | some e ↦ record rest { waived = (record { finding = f; entry = e }) ∷ rest.waived }
      | none ↦ record rest { blocking = f ∷ rest.blocking }
    ]
