-- ===== src/Compliance/Evaluate.antt =====
-- internal/compliance/evaluate.go: the posture of a framework, over the controls that were assessed.
use kubeguard.Prelude.{
  nonempty, ℕ, suc, ◌+◌, ◌-◌, String, Bool, true, false, ◌&&◌, List, [], ◌∷◌, ◌++◌, map, ◌==◌,
  nat_eq, ltb, if◌then◌else◌, any, all, filter, length, sort_strings,
}
use kubeguard.Api.{
  Severity, rank, Finding, AttackPath, ControlBreach, FrameworkResult, PostureSummary, Rate,
}
use kubeguard.Compliance.Pack.{Control, Pack}

-- A set of check ids as the list of its elements.
unfoldable pub in_set : List String → String → Bool
unfolding any
in_set ids id = any (λ j. j == id) ids

unfoldable pub all_ran : List String → List String → Bool
unfolding all in_set
all_ran ids executed = all (in_set executed) ids

-- `!(!c.Assessable || !allRan(c.MapsTo, executed))`
abbrev pub is_assessed : List String → Control → Bool
is_assessed executed c = c.assessable && all_ran c.maps_to executed

-- The counters and the breaches of `res`, in the loop of `Evaluate`.
pub record Tally : Type 0 where
  pub assessed : ℕ
  pub breached : ℕ
  pub breaches : List ControlBreach

unfoldable pub offending : List String → Control → List String
unfolding filter in_set
offending fired c = filter (in_set fired) c.maps_to

unfoldable pub assess : List String → List String → Tally → Control → Tally
unfolding offending
assess executed fired t c =
    if is_assessed executed c
    then (if nonempty (offending fired c)
        then record {
          assessed = suc t.assessed;
          breached = suc t.breached;
          breaches =
              t.breaches
              ++ (record {
                control_id = c.id;
                title = c.title;
                findings = sort_strings (offending fired c);
              })
                ∷ [];
        }
        else record t { assessed = suc t.assessed })
    else t

unfoldable pub assess_all : List String → List String → Tally → List Control → Tally
assess_all executed fired t [] = t
assess_all executed fired t (c ∷ cs) = assess_all executed fired (assess executed fired t c) cs

-- `if n > 0 { rate = round4(float64(a) / float64(n)) }`
abbrev pub rate_of : ℕ → ℕ → Rate
rate_of a n = if ltb 0 n then Rate.rounded a n else Rate.unset

unfoldable pub evaluate : Pack → List String → List String → FrameworkResult
evaluate p executed fired =
    let t =
      assess_all executed fired (record { assessed = 0; breached = 0; breaches = [] }) p.controls in
    record {
      framework = p.title;
      version = p.version;
      assessed = t.assessed;
      breached = t.breached;
      passed = t.assessed - t.breached;
      pass_rate = rate_of (t.assessed - t.breached) t.assessed;
      breaches = t.breaches;
      disclaimer = p.disclaimer;
    }

unfoldable pub evaluate_all : List Pack → List String → List String → List FrameworkResult
evaluate_all packs executed fired = map (λ p. evaluate p executed fired) packs

unfoldable pub fired_checks : List Finding → List String
fired_checks findings = map (λ f. f.id) findings

-- Equality of severities as strings.
unfoldable pub same_severity : Severity → Severity → Bool
same_severity (Severity.other s) (Severity.other t) = s == t
same_severity (Severity.other s) t = false
same_severity s t = nat_eq (rank s) (rank t)

abbrev is_critical : Severity → Bool
is_critical Severity.critical = true
is_critical _ = false

unfoldable pub count_if {ℓ} : {A : Type ℓ} → (A → Bool) → List A → ℕ
count_if p [] = 0
count_if p (x ∷ xs) = let rest = count_if p xs in if p x then suc rest else rest

unfoldable pub total : (FrameworkResult → ℕ) → List FrameworkResult → ℕ
total f [] = 0
total f (r ∷ rs) = f r + total f rs

unfoldable pub summarize : List Finding → List AttackPath → List FrameworkResult → PostureSummary
summarize findings paths results =
    let assessed = total (λ r. r.assessed) results in
    let breached = total (λ r. r.breached) results in
    record {
      total_findings = length findings;
      by_severity = λ s. count_if (λ f. same_severity f.severity s) findings;
      critical_paths = count_if (λ p. is_critical p.severity) paths;
      controls_assessed = assessed;
      controls_breached = breached;
      overall_pass_rate = rate_of (assessed - breached) assessed;
    }
