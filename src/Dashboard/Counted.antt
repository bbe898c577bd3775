-- ===== src/Dashboard/Counted.antt =====
-- The summary of `ComputeMTTR` of internal/dashboard/lifecycle.go: the rows that each figure counts.
use kubeguard.Prelude.{ℕ, ◌+◌, ◌<◌, String, List, Option, none, some, ◌≡◌, ◌≢◌, ◌⊎◌, AllPairs}
use kubeguard.Dashboard.{FindingState, FindingLifecycle, Waiver}
use kubeguard.Dashboard.Lifecycle.{MttrSummary}
use kubeguard.Dashboard.Entries.{Entry, count_in, count_measured, sum_durations}

module _ (parse_time : String → Option ℕ) (now : ℕ) where
  -- The row has a waiver with an expiry that parses and is still to come.
  abbrev pub IsWaived : FindingLifecycle → Type 0
  IsWaived lc =
      (w : Waiver) × (lc.waiver ≡ some w)
      × (w.expires_at ≢ "")
      × (exp : ℕ) × (parse_time w.expires_at ≡ some exp)
      × (now < exp)

  -- A row that is risk-accepted without such a waiver is open; otherwise its state is the one it has.
  abbrev pub IsNow : FindingLifecycle → FindingState → Type 0
  IsNow lc x =
      ((lc.state ≡ FindingState.state_risk_accepted)
        × (¬ IsWaived lc)
        × (x ≡ FindingState.state_open))
      ⊎ (((lc.state ≢ FindingState.state_risk_accepted) ⊎ IsWaived lc) × (x ≡ lc.state))

  -- The row is resolved, and its times of detection and resolution parse and are `d` apart.
  abbrev pub Took : FindingLifecycle → ℕ → Type 0
  Took lc d =
      (lc.state ≡ FindingState.state_resolved)
      × (lc.first_seen ≢ "")
      × (lc.resolved_at ≢ "")
      × (seen : ℕ) × (finished : ℕ) × (parse_time lc.first_seen ≡ some seen)
      × (parse_time lc.resolved_at ≡ some finished)
      × (seen + d ≡ finished)

  abbrev pub IsTime : FindingLifecycle → Option ℕ → Type 0
  IsTime lc none = (d : ℕ) → ¬ Took lc d
  IsTime lc (some d) = Took lc d

  -- The summary counts entries, one for each row.
  pub record IsSummary (lcs : List FindingLifecycle) (s : MttrSummary) : Type 0 where
    pub entries : List Entry
    pub of_rows : AllPairs (λ lc e. IsNow lc e.0 × IsTime lc e.1) lcs entries
    pub opened : s.opened ≡ count_in FindingState.state_open entries
    pub acknowledged : s.acknowledged ≡ count_in FindingState.state_acknowledged entries
    pub in_progress : s.in_progress ≡ count_in FindingState.state_in_progress entries
    pub resolved : s.resolved ≡ count_in FindingState.state_resolved entries
    pub risk_accepted : s.risk_accepted ≡ count_in FindingState.state_risk_accepted entries
    pub measured : s.measured ≡ count_measured entries
    pub total : s.total ≡ sum_durations entries
