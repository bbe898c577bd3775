-- ===== src/Waiver/Cover.antt =====
-- What a waiver covers, and how `Match` and `Partition` of internal/waiver/waiver.go use it.
use kubeguard.Prelude.{
  ℕ, ◌≤◌, ◌<◌, String, true, false, List, [], ◌∷◌, ◌++◌, map, Perm, Option, none, some, eq_iff, ◌≡◌,
  refl, ◌↔◌, ◌⊎◌, inl, inr, arith, All, In, All-imp, find, find-some, find-none, Option-cases,
}
use mathlib.Core.List.{perm_middle}
use mathlib.Core.List.Perm
use kubeguard.Api.{Finding, ResourceRef}
use kubeguard.Waiver.{Selector, Entry, Partitioned, selects, covers, match_entry, partition}

-- A selector's field is empty, or it is the resource's.
abbrev pub Accepts : String → String → Type 0
Accepts want got = (want ≡ "") ⊎ (want ≡ got)

abbrev pub Selects : Option Selector → ResourceRef → Type 0
Selects none r = Unit
Selects (some s) r = Accepts s.kind r.kind × Accepts s.namespace r.namespace × Accepts s.name r.name

-- The waiver names the check, is not yet expired, and selects the resource.
abbrev pub Covers : Finding → ℕ → Entry → Type 0
Covers f now e = (e.id ≡ f.id) × (now < e.expires_at) × Selects e.resource f.resource

selects_iff : (s : Option Selector) (r : ResourceRef) → (selects s r ≡ true) ↔ Selects s r
unfolding selects
selects_iff none r = (λ _. tt, λ _. refl)
selects_iff (some s) r = ground (
  arith,
  eq_iff s.kind "",
  eq_iff s.kind r.kind,
  eq_iff s.namespace "",
  eq_iff s.namespace r.namespace,
  eq_iff s.name "",
  eq_iff s.name r.name,
)

covers_iff : (f : Finding) (now : ℕ) (e : Entry) → (covers f now e ≡ true) ↔ Covers f now e
unfolding covers
covers_iff f now e = ground (arith, eq_iff e.id f.id, selects_iff e.resource f.resource)

-- The entries of a file, and none where there is no file.
abbrev pub entries_of : Option (List Entry) → List Entry
entries_of none = []
entries_of (some es) = es

-- `Match` returns an entry of the file that covers the finding; where it returns none, no entry of
-- the file does. An absent file has no entries.
pub match_entry_lem :
    (s : Option (List Entry)) (f : Finding) (now : ℕ)
    → ((e : Entry) × (match_entry s f now ≡ some e) × In e (entries_of s) × Covers f now e)
      ⊎ ((match_entry s f now ≡ none) × All (λ e. ¬ Covers f now e) (entries_of s))
unfolding match_entry
match_entry_lem none f now = inr (refl, tt)
match_entry_lem (some entries) f now = elim (Option-cases (find (covers f now) entries)) [
  | inl e ↦ inr (
    e,
    All-imp (λ x h c. ground (arith, covers_iff f now x)) entries
        (find-none (covers f now) entries e),
  )
  | inr (x, e) ↦
      let (i, c) = find-some (covers f now) entries x e in inl (x, e, i, (covers_iff f now x).0 c)
]

covers_earlier :
    (f : Finding) (now later : ℕ) (e : Entry)
    → now ≤ later
    → covers f now e ≡ false
    → covers f later e ≡ false
unfolding covers
covers_earlier f now later e h = ground arith

find_later :
    (f : Finding) (now later : ℕ) (entries : List Entry)
    → now ≤ later
    → find (covers f now) entries ≡ none
    → find (covers f later) entries ≡ none
unfolding find
find_later f now later [] h k = refl
find_later f now later (e ∷ es) h k =
    ground (arith, covers_earlier f now later e, find_later f now later es)

-- A finding that blocks at one time blocks at every later time: a waiver can lapse and cannot
-- come into force.
pub match_entry_later :
    (s : Option (List Entry)) (f : Finding) (now later : ℕ)
    → now ≤ later
    → match_entry s f now ≡ none
    → match_entry s f later ≡ none
unfolding match_entry
match_entry_later none f now later h k = refl
match_entry_later (some es) f now later h k = find_later f now later es h k

module _ (s : Option (List Entry)) (now : ℕ) where
  -- What `Partition` promises of its two results.
  pub record IsPartition (findings : List Finding) (p : Partitioned) : Type 0 where
    pub whole : Perm (p.blocking ++ map (λ w. w.finding) p.waived) findings
    pub unwaived : All (λ f. match_entry s f now ≡ none) p.blocking
    pub covered : All (λ w. match_entry s w.finding now ≡ some w.entry) p.waived

  -- `Partition` loses no finding and invents none; the blocking ones are those that `Match` finds
  -- no waiver for, and each waived one comes with the waiver that `Match` finds.
  pub partition-IsPartition :
      (findings : List Finding) → IsPartition findings (partition s findings now)
  unfolding partition
  partition-IsPartition [] = record { whole = Perm.rfl; unwaived = tt; covered = tt }
  partition-IsPartition (f ∷ fs) =
      let ih = partition-IsPartition fs in
      elim (Option-cases (match_entry s f now)) [
        | inl e ↦
            rw (e, partition)
              (record {
                whole = Perm.cons f ih.whole;
                unwaived = (e, ih.unwaived);
                covered = ih.covered;
              })
        | inr (w, e) ↦
            rw (e, partition)
              (record {
                whole = Perm.trans (perm_middle _ _) (Perm.cons f ih.whole);
                unwaived = ih.unwaived;
                covered = (e, ih.covered);
              })
      ]
