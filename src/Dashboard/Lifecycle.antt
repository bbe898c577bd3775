-- ===== src/Dashboard/Lifecycle.antt =====
-- internal/dashboard/lifecycle.go: the triage state of findings. An instant is a number of nanoseconds;
-- `parse_time` is `time.Parse(time.RFC3339, ·)`.
use kubeguard.Prelude.{
  ℕ, suc, ◌+◌, ◌-◌, String, Bool, true, false, not, ◌&&◌, List, [], ◌∷◌, Option, none, some, ◌==◌,
  ltb, if◌then◌else◌,
}
use kubeguard.Dashboard.{FindingState, Waiver, FindingLifecycle}

abbrev pub is_risk_accepted : FindingState → Bool
is_risk_accepted FindingState.state_risk_accepted = true
is_risk_accepted FindingState.state_open = false
is_risk_accepted FindingState.state_acknowledged = false
is_risk_accepted FindingState.state_in_progress = false
is_risk_accepted FindingState.state_resolved = false
is_risk_accepted (FindingState.state_other s) = false

abbrev pub is_resolved : FindingState → Bool
is_resolved FindingState.state_resolved = true
is_resolved FindingState.state_open = false
is_resolved FindingState.state_acknowledged = false
is_resolved FindingState.state_in_progress = false
is_resolved FindingState.state_risk_accepted = false
is_resolved (FindingState.state_other s) = false

-- `triageStates`
abbrev pub is_triage_state : FindingState → Bool
is_triage_state FindingState.state_open = true
is_triage_state FindingState.state_acknowledged = true
is_triage_state FindingState.state_in_progress = true
is_triage_state FindingState.state_resolved = true
is_triage_state FindingState.state_risk_accepted = false
is_triage_state (FindingState.state_other s) = false

module _ (parse_time : String → Option ℕ) where
  -- `Active`, where nil is `none`.
  unfoldable pub active : Option Waiver → ℕ → Bool
  active none now = false
  active (some w) now =
      if w.expires_at == ""
      then false
      else elim (parse_time w.expires_at) [ none ↦ false | some exp ↦ ltb now exp ]

  unfoldable pub effective_state : FindingLifecycle → ℕ → FindingState
  unfolding active
  effective_state lc now =
      if is_risk_accepted lc.state && not (active lc.waiver now)
      then FindingState.state_open
      else lc.state

  unfoldable pub is_actively_waived : FindingLifecycle → ℕ → Bool
  unfolding active
  is_actively_waived lc now = is_risk_accepted lc.state && active lc.waiver now

  -- `lc.State = lc.EffectiveState(now)`
  unfoldable pub settle : ℕ → FindingLifecycle → FindingLifecycle
  unfolding effective_state
  settle now lc = record lc { state = effective_state lc now }

-- The mean is kept as the total, in nanoseconds, and the number of findings measured.
pub record MttrSummary : Type 0 where
  pub opened : ℕ
  pub acknowledged : ℕ
  pub in_progress : ℕ
  pub resolved : ℕ
  pub risk_accepted : ℕ
  pub total : ℕ
  pub measured : ℕ

unfoldable pub no_rows : MttrSummary
no_rows = record {
  opened = 0;
  acknowledged = 0;
  in_progress = 0;
  resolved = 0;
  risk_accepted = 0;
  total = 0;
  measured = 0;
}

-- The `switch` of `ComputeMTTR`, which counts no other state.
unfoldable pub count_state : FindingState → MttrSummary → MttrSummary
count_state FindingState.state_open s = record s { opened = suc s.opened }
count_state FindingState.state_acknowledged s = record s { acknowledged = suc s.acknowledged }
count_state FindingState.state_in_progress s = record s { in_progress = suc s.in_progress }
count_state FindingState.state_resolved s = record s { resolved = suc s.resolved }
count_state FindingState.state_risk_accepted s = record s { risk_accepted = suc s.risk_accepted }
count_state (FindingState.state_other x) s = s

unfoldable pub add_duration : ℕ → ℕ → MttrSummary → MttrSummary
add_duration seen finished s =
    if not (ltb finished seen)
    then record s { total = s.total + (finished - seen); measured = suc s.measured }
    else s

module _ (parse_time : String → Option ℕ) where
  unfoldable pub measure : FindingLifecycle → MttrSummary → MttrSummary
  unfolding add_duration
  measure lc s =
      if is_resolved lc.state && not (lc.first_seen == "") && not (lc.resolved_at == "")
      then elim (parse_time lc.first_seen) [
        | none ↦ s
        | some seen ↦ elim (parse_time lc.resolved_at) [
          | none ↦ s
          | some finished ↦ add_duration seen finished s
        ]
      ]
      else s

  unfoldable pub summarize : List FindingLifecycle → ℕ → MttrSummary → MttrSummary
  unfolding measure count_state effective_state
  summarize [] now s = s
  summarize (lc ∷ lcs) now s =
      summarize lcs now (measure lc (count_state (effective_state parse_time lc now) s))

  unfoldable pub compute_mttr : List FindingLifecycle → ℕ → MttrSummary
  unfolding summarize no_rows
  compute_mttr lcs now = summarize lcs now no_rows
