-- ===== src/Checks/Sorted.antt =====
-- `SortFindings` and `Scan` of internal/checks/check.go: the order of the findings and what they are.
use kubeguard.Prelude.{
  ◌<◌, String, true, false, [], ◌∷◌, none, some, ◌≡◌, sym, ◌∙◌, ◌↔◌, ◌⊎◌, inl, inr, arith, MapRange,
  Perm, flat_map, Any, In, Any-imp, Any-map, map-Any, Any-flat_map, flat_map-Any, Bool-cases,
  Option-cases, false-true, IsWeakOrder, Ordered, IsSorted-Ordered, sort_stable-IsSorted,
  sort_stable-perm, sort_stable-Any, str-IsKeyOrder, gtb-IsKeyOrder, last-IsWeakOrder,
  next-IsWeakOrder, not_next, str_lt, cat,
}
use kubeguard.Api.{Severity, rank, Finding, ResourceRef}
use kubeguard.Api.Gravity.{gravity, rank-gravity}
use kubeguard.Graph.{Graph}
use kubeguard.Checks.Check.{Check}
use kubeguard.Checks.Profile.{Profile, includes}
use kubeguard.Checks.Scan.{
  lookup_severity, override, finding_less, resource_key, run_check, registry, scan_unsorted,
  sort_findings, scan,
}

finding_less-IsWeakOrder : IsWeakOrder finding_less
finding_less-IsWeakOrder =
    next-IsWeakOrder gtb-IsKeyOrder (λ f. rank f.severity)
      (next-IsWeakOrder str-IsKeyOrder (λ f. f.category)
        (next-IsWeakOrder str-IsKeyOrder (λ f. f.id)
          (last-IsWeakOrder str-IsKeyOrder (λ f. resource_key f.resource))))

abbrev pub place : ResourceRef → String
place r = cat (r.namespace ∷ "/" ∷ r.kind ∷ "/" ∷ r.name ∷ [])

-- The finding `x` is more severe than `y`, or as severe and of an earlier category, or of the same
-- category and with a smaller id, or with the same id and of no later resource.
abbrev pub Precedes : Finding → Finding → Type 0
Precedes x y =
    (gravity y.severity < gravity x.severity)
    ⊎ ((gravity x.severity ≡ gravity y.severity)
        × ((str_lt x.category y.category ≡ true)
            ⊎ ((x.category ≡ y.category)
                × ((str_lt x.id y.id ≡ true)
                    ⊎ ((x.id ≡ y.id) × (str_lt (place y.resource) (place x.resource) ≡ false))))))

not_less-Precedes : (x y : Finding) → finding_less y x ≡ false → Precedes x y
unfolding resource_key
not_less-Precedes x y h =
    rw (← rank-gravity x.severity, ← rank-gravity y.severity)
      (elim (not_next gtb-IsKeyOrder (rank x.severity) (rank y.severity) _ h) [
        | inl l ↦ inl (ground arith)
        | inr (e, h') ↦ inr (
          e,
          elim (not_next str-IsKeyOrder x.category y.category _ h') [
            | inl l ↦ inl l
            | inr (e', h'') ↦ inr (e', not_next str-IsKeyOrder x.id y.id _ h'')
          ],
        )
      ])

-- The finding `f` is what the check `c` reports as `r`, with the severity that the profile sets for the
-- check, if it sets one.
abbrev pub IsShown : Profile → Check → Finding → Finding → Type 0
IsShown p c f r =
    ((lookup_severity c.meta.id p.severity_override ≡ none) × (f ≡ r))
    ⊎ ((s : Severity) × (lookup_severity c.meta.id p.severity_override ≡ some s)
        × (f ≡ record r { severity = s }))

override-IsShown :
    (p : Profile) (c : Check) (f r : Finding) → (override p c.meta.id r ≡ f) ↔ IsShown p c f r
unfolding override
override-IsShown p c f r = elim (Option-cases (lookup_severity c.meta.id p.severity_override)) [
  | inl e ↦ (
    λ h. inl (e, sym (rw (e, override) at h)),
    λ h. rw (e, override) (elim h [ inl k ↦ sym k.1 | inr k ↦ cc ]),
  )
  | inr (s, e) ↦ (
    λ h. inr (s, e, sym (rw (e, override) at h)),
    λ h. rw (e, override) (elim h [ inl k ↦ cc | inr k ↦ cc ]),
  )
]

run_check-IsShown :
    (g : Graph) (p : Profile) (c : Check) (f : Finding)
    → In f (run_check g p c) ↔ ((includes p c.meta.id ≡ true) × Any (IsShown p c f) (c.run g))
unfolding run_check
run_check-IsShown g p c f = elim (Bool-cases (includes p c.meta.id)) [
  | inl y ↦ (
    λ h. (
      y,
      Any-imp (λ r. (override-IsShown p c f r).0) (c.run g)
          (Any-map (λ x. x ≡ f) (override p c.meta.id) (c.run g) (rw (y, run_check) at h)),
    ),
    λ h.
        rw (y, run_check)
          (map-Any (λ x. x ≡ f) (override p c.meta.id) (c.run g)
            (Any-imp (λ r. (override-IsShown p c f r).1) (c.run g) h.1)),
  )
  | inr n ↦ (λ h. elim (rw (n, run_check) at h) [ ], λ h. absurd (false-true (sym n ∙ h.0)))
]

-- A scan has its findings in order: more severe first, then by category, by id and by resource. They are
-- those that a check of the profile reports, with the severity that the profile sets for the check, if
-- any, and each as often as the checks report it.
pub scan-IsSorted :
    (m : MapRange) (g : Graph) (p : Profile)
    → Ordered Precedes (scan m g p)
      × ((f : Finding)
          → In f (scan m g p)
            ↔ Any (λ c. (includes p c.meta.id ≡ true) × Any (IsShown p c f) (c.run g)) (registry m))
      × Perm (scan m g p) (flat_map (run_check g p) (registry m))
unfolding scan sort_findings scan_unsorted
scan-IsSorted m g p =
    let found = flat_map (run_check g p) (registry m) in
    (
      IsSorted-Ordered finding_less Precedes not_less-Precedes _
          (sort_stable-IsSorted finding_less finding_less-IsWeakOrder found),
      λ f.
          let s = sort_stable-Any finding_less (λ x. x ≡ f) found in
          (
            λ h.
                Any-imp (λ c. (run_check-IsShown g p c f).0) (registry m)
                  (Any-flat_map (λ x. x ≡ f) (run_check g p) (registry m) (s.0 h)),
            λ h. s.1 (
                flat_map-Any (λ x. x ≡ f) (run_check g p) (registry m)
                  (Any-imp (λ c. (run_check-IsShown g p c f).1) (registry m) h)),
          ),
      sort_stable-perm finding_less _,
    )
