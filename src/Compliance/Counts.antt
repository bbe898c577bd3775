-- ===== src/Compliance/Counts.antt =====
-- What the figures of a framework result count.
use kubeguard.Prelude.{
  length, IsSelection, filter-IsSelection, filter-filter, AllPairs, map-AllPairs, nonempty, ◌+◌,
  ◌≤◌, String, Bool, true, ◌&&◌, List, [], ◌∷◌, ◌++◌, map, ◌≡◌, refl, ◌∙◌, ◌↔◌, arith, Any, All, In,
  filter, filter-Any, Any-filter, Any-imp, any_iff, all_iff, All-imp, sort_strings, eq_iff,
  nonempty-Any, Any-nonempty,
}
use mathlib.Core.List.{append_assoc, append-nil}
use kubeguard.Api.{ControlBreach, FrameworkResult}
use kubeguard.Compliance.Pack.{Control, Pack}
use kubeguard.Compliance.Evaluate.{
  in_set, all_ran, is_assessed, Tally, offending, assess, assess_all, evaluate, count_if,
}

-- Every check that the control maps to was executed.
abbrev pub IsAssessed : List String → Control → Type 0
IsAssessed executed c = (c.assessable ≡ true) × All (λ id. In id executed) c.maps_to

-- Some check that the control maps to fired.
abbrev pub IsBreached : List String → Control → Type 0
IsBreached fired c = Any (λ id. In id fired) c.maps_to

pub in_set_iff : (ids : List String) (id : String) → (in_set ids id ≡ true) ↔ In id ids
unfolding in_set
in_set_iff ids id = (
  λ h. Any-imp (λ x. (eq_iff x id).0) ids ((any_iff _ ids).0 h),
  λ h. (any_iff _ ids).1 (Any-imp (λ x. (eq_iff x id).1) ids h),
)

pub is_assessed_iff :
    (executed : List String) (c : Control) → (is_assessed executed c ≡ true) ↔ IsAssessed executed c
unfolding all_ran
is_assessed_iff executed c = (
  λ h. (
    ground arith,
    All-imp (λ id. (in_set_iff executed id).0) c.maps_to ((all_iff _ c.maps_to).0 (ground arith)),
  ),
  λ h.
      let every : all_ran c.maps_to executed ≡ true =
        (all_iff _ c.maps_to).1 (All-imp (λ id. (in_set_iff executed id).1) c.maps_to h.1) in
      ground arith,
)

abbrev pub is_breached : List String → Control → Bool
is_breached fired c = nonempty (offending fired c)

pub is_breached_iff :
    (fired : List String) (c : Control) → (is_breached fired c ≡ true) ↔ IsBreached fired c
unfolding offending
is_breached_iff fired c = (
  λ h.
      Any-imp (λ id q. (in_set_iff fired id).0 q.1) c.maps_to
        (Any-filter (in_set fired) (λ _. Unit) c.maps_to (nonempty-Any _ h)),
  λ h.
      Any-nonempty (λ _. Unit) _
        (filter-Any (in_set fired) (λ _. Unit) c.maps_to
          (Any-imp (λ id i. (tt, (in_set_iff fired id).1 i)) c.maps_to h)),
)

abbrev pub breach : List String → Control → ControlBreach
breach fired c = record {
  control_id = c.id;
  title = c.title;
  findings = sort_strings (offending fired c);
}

count_if-length : {A : Type 0} (p : A → Bool) (xs : List A) → count_if p xs ≡ length (filter p xs)
unfolding count_if filter
count_if-length p [] = refl
count_if-length p (x ∷ xs) = ground (arith, count_if-length p xs)

module _ (executed fired : List String) where
  abbrev pub counts_breach : Control → Bool
  counts_breach c = is_assessed executed c && is_breached fired c

  -- The tally after the controls, in closed form.
  abbrev tallied : Tally → List Control → Tally
  tallied t cs = record {
    assessed = t.assessed + count_if (is_assessed executed) cs;
    breached = t.breached + count_if counts_breach cs;
    breaches = t.breaches ++ map (breach fired) (filter counts_breach cs);
  }

  tallied-cons :
      (t : Tally) (c : Control) (cs : List Control)
      → tallied (assess executed fired t c) cs ≡ tallied t (c ∷ cs)
  unfolding assess count_if filter
  tallied-cons t c cs = ground (
    arith,
    append_assoc t.breaches (breach fired c ∷ []) (map (breach fired) (filter counts_breach cs)),
  )

  assess_all-eq : (t : Tally) (cs : List Control) → assess_all executed fired t cs ≡ tallied t cs
  unfolding assess_all
  assess_all-eq t [] = unfold count_if filter in ground (arith, append-nil t.breaches)
  assess_all-eq t (c ∷ cs) = assess_all-eq (assess executed fired t c) cs ∙ tallied-cons t c cs

  count_if-le : (cs : List Control) → count_if counts_breach cs ≤ count_if (is_assessed executed) cs
  unfolding count_if
  count_if-le [] = omega arith
  count_if-le (c ∷ cs) = ground (arith, count_if-le cs)

  -- The control's breach: its id and title, and the checks that it maps to and that fired, sorted.
  abbrev pub IsBreachOf : Control → ControlBreach → Type 0
  IsBreachOf c b =
      (b.control_id ≡ c.id)
      × (b.title ≡ c.title)
      × (ids : List String) × IsSelection (λ id. In id fired) c.maps_to ids
      × (b.findings ≡ sort_strings ids)

  -- What a result says of the controls: the assessed ones, of these the breached ones, how many they are,
  -- and the breach of each of the latter.
  pub record IsResult (controls : List Control) (r : FrameworkResult) : Type 0 where
    pub assessed : List Control
    pub are_assessed : IsSelection (IsAssessed executed) controls assessed
    pub breached : List Control
    pub are_breached : IsSelection (IsBreached fired) assessed breached
    pub assessed_count : r.assessed ≡ length assessed
    pub breached_count : r.breached ≡ length breached
    pub passed_count : r.passed + r.breached ≡ r.assessed
    pub breaches : AllPairs IsBreachOf breached r.breaches

  breach-IsBreachOf : (c : Control) → IsBreachOf c (breach fired c)
  unfolding offending
  breach-IsBreachOf c = (
    refl,
    refl,
    offending fired c,
    filter-IsSelection (λ id. In id fired) (in_set fired) (in_set_iff fired) c.maps_to,
    refl,
  )

  -- The controls that a result counts as assessed are those that are assessable and whose checks were all
  -- executed; of these, those are breached for which a check that they map to fired; the passed ones are
  -- the others, so that no subtraction runs below 0; and the breaches are those of the breached controls,
  -- in the order of the pack, each with its checks that fired, sorted.
  pub evaluate_counts : (p : Pack) → IsResult p.controls (evaluate p executed fired)
  unfolding evaluate
  evaluate_counts p =
      let start : Tally = record { assessed = 0; breached = 0; breaches = [] } in
      let cs = p.controls in
      rw (assess_all-eq start cs) (record {
        assessed = filter (is_assessed executed) cs;
        are_assessed = filter-IsSelection (IsAssessed executed) _ (is_assessed_iff executed) cs;
        breached = filter (is_breached fired) (filter (is_assessed executed) cs);
        are_breached = filter-IsSelection (IsBreached fired) _ (is_breached_iff fired) _;
        assessed_count = omega (arith, count_if-length (is_assessed executed) cs);
        breached_count =
            rw (filter-filter (is_assessed executed) (is_breached fired) cs)
              (omega (arith, count_if-length counts_breach cs));
        passed_count = omega (arith, count_if-le cs);
        breaches =
            rw (filter-filter (is_assessed executed) (is_breached fired) cs)
              (map-AllPairs IsBreachOf (breach fired) breach-IsBreachOf _);
      })
