-- ===== src/Compliance/Evidence/Agreement.antt =====
-- The evidence export and the framework results count the same controls.
use kubeguard.Prelude.{
  nonempty-Any, Any-nonempty, Bool_ext, String, List, [], ◌∷◌, ◌≡◌, refl, ◌↔◌, arith, Any, In,
  Any-imp, Any-filter, filter-Any, Any-flat_map, flat_map-Any, sort_strings, sort_stable-Any,
  str_lt, eq_iff, ◌==◌, Any-map, map-Any,
}
use kubeguard.Api.{Finding, Report}
use kubeguard.Compliance.Pack.{Control, Pack}
use kubeguard.Compliance.Evaluate.{fired_checks, Tally, assess, assess_all, evaluate}
use kubeguard.Compliance.Counts.{is_breached, is_breached_iff}
use kubeguard.Compliance.Evidence.{
  by_check, Pages, evidence_control, add_control, add_controls, evidence_pack,
}

-- A check has findings of its own exactly if it fired.
by_check-nonempty :
    (findings : List Finding) (id : String)
    → Any (λ f. Unit) (by_check findings id) ↔ In id (fired_checks findings)
unfolding by_check fired_checks
by_check-nonempty findings id = (
  λ h.
      map-Any (λ x. x ≡ id) (λ f. f.id) findings
        (Any-imp (λ f q. (eq_iff f.id id).0 q.1) findings
          (Any-filter (λ f. f.id == id) (λ _. Unit) findings h)),
  λ h.
      filter-Any (λ f. f.id == id) (λ _. Unit) findings
        (Any-imp (λ f e. (tt, (eq_iff f.id id).1 e)) findings
          (Any-map (λ x. x ≡ id) (λ f. f.id) findings h)),
)

-- The export calls a control breached exactly if the evaluation does.
pub evidence_control-breached :
    (findings : List Finding) (c : Control)
    → (evidence_control findings c).breached ≡ is_breached (fired_checks findings) c
unfolding evidence_control sort_strings
evidence_control-breached findings c = Bool_ext _ _ (
  λ h. (is_breached_iff (fired_checks findings) c).1 (
      Any-imp (λ id. (by_check-nonempty findings id).0) c.maps_to
        ((sort_stable-Any str_lt (λ id. Any (λ f. Unit) (by_check findings id)) c.maps_to).0
          (Any-flat_map (λ f. Unit) (by_check findings) _ (nonempty-Any _ h)))),
  λ h.
      Any-nonempty (λ f. Unit) _
        (flat_map-Any (λ f. Unit) (by_check findings) _
          ((sort_stable-Any str_lt (λ id. Any (λ f. Unit) (by_check findings id)) c.maps_to).1 (
            Any-imp (λ id. (by_check-nonempty findings id).1) c.maps_to
              ((is_breached_iff (fired_checks findings) c).0 h)))),
)

module _ (findings : List Finding) (executed : List String) where
  -- The counters of the two loops agree.
  abbrev Agree : Pages → Tally → Type 0
  Agree e t = (e.assessed ≡ t.assessed) × (e.breached ≡ t.breached)

  add_control-Agree :
      (e : Pages) (t : Tally) (c : Control)
      → Agree e t
      → Agree (add_control findings executed e c) (assess executed (fired_checks findings) t c)
  unfolding add_control assess
  add_control-Agree e t c h = ground (arith, evidence_control-breached findings c)

  add_controls-Agree :
      (e : Pages) (t : Tally) (cs : List Control)
      → Agree e t
      → Agree
          (add_controls findings executed e cs)
          (assess_all executed (fired_checks findings) t cs)
  unfolding add_controls assess_all
  add_controls-Agree e t [] h = h
  add_controls-Agree e t (c ∷ cs) h =
      add_controls-Agree (add_control findings executed e c)
        (assess executed (fired_checks findings) t c) cs (add_control-Agree e t c h)

-- The evidence pack of a framework and its result in the report have the same denominator, the same
-- breached and passed controls and the same rate, if the fired checks are those of the findings.
pub evidence_pack-evaluate :
    (rep : Report) (executed : List String) (p : Pack)
    → ((evidence_pack rep executed p).assessed
        ≡ (evaluate p executed (fired_checks rep.findings)).assessed)
      × ((evidence_pack rep executed p).breached
          ≡ (evaluate p executed (fired_checks rep.findings)).breached)
      × ((evidence_pack rep executed p).passed
          ≡ (evaluate p executed (fired_checks rep.findings)).passed)
      × ((evidence_pack rep executed p).pass_rate
          ≡ (evaluate p executed (fired_checks rep.findings)).pass_rate)
unfolding evidence_pack evaluate
evidence_pack-evaluate rep executed p =
    let (a, b) =
      add_controls-Agree rep.findings executed
        (record { assessed = 0; breached = 0; controls = [] })
        (record { assessed = 0; breached = 0; breaches = [] }) p.controls (refl, refl) in
    (a, b, cc (a, b), cc (a, b))
