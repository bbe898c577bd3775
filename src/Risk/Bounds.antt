-- ===== src/Risk/Bounds.antt =====
-- What a risk score is made of.
use kubeguard.Prelude.{
  ℕ, ◌<◌, ◌⊎◌, inl, inr, ap, false, Ordered, IsSorted-Ordered, not_next, str_lt, ◌+◌, ◌≤◌, String,
  List, [], ◌∷◌, ◌++◌, Option, none, some, ◌≡◌, refl, arith, All, map, Perm, sort_stable-All,
  sort_stable-perm, sort_stable-IsSorted, IsWeakOrder, last-IsWeakOrder, next-IsWeakOrder,
  str-IsKeyOrder, gtb-IsKeyOrder,
}
use mathlib.Core.List.Perm
use kubeguard.Api.{Severity, rank, Finding, ResourceRef, RiskFactor, RiskScore, Report}
use kubeguard.Api.Gravity.{gravity, rank-gravity}
use kubeguard.Risk.{severity_points, PathSignals, SignalMap, analyze_paths}
use kubeguard.Risk.Score.{
  Sum, add, add_blast_radius, add_signals, breadth_bonus, add_breadth, sum_for, score_finding,
  risk_less, score,
}

abbrev pub points_sum : List RiskFactor → ℕ
points_sum [] = 0
points_sum (f ∷ fs) = f.points + points_sum fs

points_sum-append :
    (xs ys : List RiskFactor) → points_sum (xs ++ ys) ≡ points_sum xs + points_sum ys
points_sum-append [] ys = omega arith
points_sum-append (x ∷ xs) ys = omega (arith, points_sum-append xs ys)

-- The score of an entry under construction is the sum of its factors.
abbrev IsExplained : Sum → Type 0
IsExplained s = s.score ≡ points_sum s.factors

add-IsExplained :
    (name : String) (pts : ℕ) (detail : String) (s : Sum)
    → IsExplained s
    → IsExplained (add name pts detail s)
unfolding add
add-IsExplained name pts detail s h = ground (
  arith,
  points_sum-append s.factors ((record { name = name; points = pts; detail = detail }) ∷ []),
)

add-score-le :
    (name : String) (pts : ℕ) (detail : String) (s : Sum)
    → (add name pts detail s).score ≤ s.score + pts
unfolding add
add-score-le name pts detail s = ground arith

add_blast_radius-IsExplained :
    (sig : PathSignals) (s : Sum) → IsExplained s → IsExplained (add_blast_radius sig s)
unfolding add_blast_radius
add_blast_radius-IsExplained sig s h = grind (arith, add-IsExplained)

add_signals-IsExplained :
    (sig : Option PathSignals) (s : Sum) → IsExplained s → IsExplained (add_signals sig s)
unfolding add_signals
add_signals-IsExplained none s h = h
add_signals-IsExplained (some sig) s h =
    grind (arith, add-IsExplained, add_blast_radius-IsExplained)

add_breadth-IsExplained : (n : ℕ) (s : Sum) → IsExplained s → IsExplained (add_breadth n s)
unfolding add_breadth
add_breadth-IsExplained n s h = grind (arith, add-IsExplained)

sum_for-IsExplained :
    (by_finding : SignalMap) (findings : List Finding) (f : Finding)
    → IsExplained (sum_for by_finding findings f)
unfolding sum_for
sum_for-IsExplained by_finding findings f =
    add_breadth-IsExplained _ _ (
      add_signals-IsExplained _ _ (add-IsExplained _ _ _ (record { score = 0; factors = [] }) refl))

add_blast_radius-le : (sig : PathSignals) (s : Sum) → (add_blast_radius sig s).score ≤ s.score + 30
unfolding add_blast_radius
add_blast_radius-le sig s = grind (arith, add-score-le)

add_signals-le : (sig : Option PathSignals) (s : Sum) → (add_signals sig s).score ≤ s.score + 75
unfolding add_signals
add_signals-le none s = omega arith
add_signals-le (some sig) s = grind (arith, add-score-le, add_blast_radius-le)

add_breadth-le : (n : ℕ) (s : Sum) → (add_breadth n s).score ≤ s.score + 10
unfolding add_breadth breadth_bonus
add_breadth-le n s = grind (arith, add-score-le)

severity_points-le : (s : Severity) → severity_points s ≤ 50
unfolding severity_points
severity_points-le Severity.critical = omega arith
severity_points-le Severity.high = omega arith
severity_points-le s = omega arith

sum_for-le :
    (by_finding : SignalMap) (findings : List Finding) (f : Finding)
    → (sum_for by_finding findings f).score ≤ 135
unfolding sum_for
sum_for-le by_finding findings f =
    grind (arith, add_breadth-le, add_signals-le, add-score-le, severity_points-le)

risk_less-IsWeakOrder : IsWeakOrder risk_less
risk_less-IsWeakOrder =
    next-IsWeakOrder gtb-IsKeyOrder (λ r. r.score)
      (next-IsWeakOrder gtb-IsKeyOrder (λ r. rank r.severity)
        (last-IsWeakOrder str-IsKeyOrder (λ r. r.finding_id)))

IsExplainedScore-map :
    (by_finding : SignalMap) (all fs : List Finding)
    → All
        (λ r. (r.score ≡ points_sum r.factors) × (r.score ≤ 135))
        (map (score_finding by_finding all) fs)
unfolding score_finding
IsExplainedScore-map by_finding all [] = tt
IsExplainedScore-map by_finding all (f ∷ fs) = (
  (sum_for-IsExplained by_finding all f, sum_for-le by_finding all f),
  IsExplainedScore-map by_finding all fs,
)

-- Every risk score of a report is the sum of the points of its factors, and is at most 135, the
-- sum of the largest weights.
pub score-explained :
    (rep : Report) → All (λ r. (r.score ≡ points_sum r.factors) × (r.score ≤ 135)) (score rep)
unfolding score
score-explained rep =
    sort_stable-All risk_less _ _
      (IsExplainedScore-map (analyze_paths rep.paths) rep.findings rep.findings)

-- The entry `x` has a higher score than `y`, or the same and a more severe finding, or one as severe and
-- of no larger id.
abbrev pub RiskPrecedes : RiskScore → RiskScore → Type 0
RiskPrecedes x y =
    (y.score < x.score)
    ⊎ ((x.score ≡ y.score)
        × ((gravity y.severity < gravity x.severity)
            ⊎ ((gravity x.severity ≡ gravity y.severity)
                × (str_lt y.finding_id x.finding_id ≡ false))))

not_less-RiskPrecedes : (x y : RiskScore) → risk_less y x ≡ false → RiskPrecedes x y
not_less-RiskPrecedes x y h =
    rw (← rank-gravity x.severity, ← rank-gravity y.severity)
      (elim (not_next gtb-IsKeyOrder x.score y.score _ h) [
        | inl l ↦ inl (ground arith)
        | inr (e, h') ↦ inr (
          e,
          elim (not_next gtb-IsKeyOrder (rank x.severity) (rank y.severity) _ h') [
            | inl l ↦ inl (ground arith)
            | inr last ↦ inr last
          ],
        )
      ])

-- What an entry and a finding say of the finding.
abbrev pub Subject : Type 0
Subject = String × String × Severity × ResourceRef

abbrev pub subject_of : RiskScore → Subject
subject_of r = (r.finding_id, r.title, r.severity, r.resource)

abbrev pub subject : Finding → Subject
subject f = (f.id, f.title, f.severity, f.resource)

subject-score_finding :
    (by_finding : SignalMap) (all fs : List Finding)
    → map subject_of (map (score_finding by_finding all) fs) ≡ map subject fs
unfolding score_finding
subject-score_finding by_finding all [] = refl
subject-score_finding by_finding all (f ∷ fs) =
    ap (λ l. subject f ∷ l) (subject-score_finding by_finding all fs)

-- The ranking puts higher scores first, then more severe findings, then smaller ids, and has one entry
-- for each finding, with its id, title, severity and resource, and the score of that finding.
pub score-IsSorted :
    (rep : Report)
    → Ordered RiskPrecedes (score rep)
      × Perm (map subject_of (score rep)) (map subject rep.findings)
      × Perm (score rep) (map (score_finding (analyze_paths rep.paths) rep.findings) rep.findings)
unfolding score
score-IsSorted rep =
    let entries = map (score_finding (analyze_paths rep.paths) rep.findings) rep.findings in
    (
      IsSorted-Ordered risk_less RiskPrecedes not_less-RiskPrecedes _
          (sort_stable-IsSorted risk_less risk_less-IsWeakOrder entries),
      rw (← subject-score_finding (analyze_paths rep.paths) rep.findings rep.findings)
          (Perm.map subject_of (sort_stable-perm risk_less entries)),
      sort_stable-perm risk_less entries,
    )
