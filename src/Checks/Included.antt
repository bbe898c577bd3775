-- ===== src/Checks/Included.antt =====
-- `Scan` and `RunnableIDs` of internal/checks: a scan has findings of included checks only.
use kubeguard.Prelude.{
  String, List, [], ◌∷◌, map, ◌≡◌, refl, sym, ◌∙◌, inl, inr, Bool-cases, Option-cases, All, In,
  All-imp, All-append, flat_map, filter, sort_stable-All, MapRange,
}
use kubeguard.Api.{Finding}
use kubeguard.Graph.{Graph}
use kubeguard.Checks.Check.{Check}
use kubeguard.Checks.Own.{Own, registry-Own}
use kubeguard.Checks.Profile.{Profile, includes}
use kubeguard.Checks.Scan.{
  registry, override, lookup_severity, run_check, finding_less, sort_findings, scan_unsorted, scan,
  runnable_ids,
}

override-id : (p : Profile) (id : String) (f : Finding) → (override p id f).id ≡ f.id
unfolding override
override-id p id f = elim (Option-cases (lookup_severity id p.severity_override)) [
  | inl e ↦ rw (e, override) refl
  | inr (s, e) ↦ rw (e, override) refl
]

override_all-Own :
    (p : Profile) (id : String) (fs : List Finding) → Own id fs → Own id (map (override p id) fs)
override_all-Own p id [] h = tt
override_all-Own p id (f ∷ fs) h = (override-id p id f ∙ h.0, override_all-Own p id fs h.1)

-- The ids of the checks that the profile includes.
abbrev included : Profile → List Check → List String
included p cs = map (λ c. c.meta.id) (filter (λ c. includes p c.meta.id) cs)

checks-included :
    (g : Graph) (p : Profile) (cs : List Check)
    → All (λ c. Own c.meta.id (c.run g)) cs
    → All (λ f. In f.id (included p cs)) (flat_map (run_check g p) cs)
unfolding flat_map filter run_check
checks-included g p [] h = tt
checks-included g p (c ∷ cs) h = elim (Bool-cases (includes p c.meta.id)) [
  | inr n ↦ rw n (checks-included g p cs h.1)
  | inl y ↦ rw y (
      All-append (λ f. In f.id (c.meta.id ∷ included p cs)) _ _
        (All-imp (λ f e. inl (sym e)) _ (override_all-Own p c.meta.id (c.run g) h.0))
        (All-imp (λ f i. inr i) _ (checks-included g p cs h.1)))
]

-- Every finding of a scan has the id of a check that the profile includes, and that is a check that
-- `RunnableIDs` counts as executed.
pub scan-runnable_ids :
    (m : MapRange) (g : Graph) (p : Profile) → All (λ f. In f.id (runnable_ids m p)) (scan m g p)
unfolding scan sort_findings scan_unsorted runnable_ids
scan-runnable_ids m g p =
    sort_stable-All finding_less (λ f. In f.id (included p (registry m))) _
      (checks-included g p (registry m) (registry-Own g m))
