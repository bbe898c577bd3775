-- ===== src/Dashboard/Entries.antt =====
-- What each row adds to the summary of `ComputeMTTR` of internal/dashboard/lifecycle.go.
use kubeguard.Prelude.{
  ℕ, suc, ◌+◌, true, not, ◌&&◌, List, [], ◌∷◌, Option, none, some, ◌≡◌, refl, arith, if◌then◌else◌,
  false-true,
}
use kubeguard.Dashboard.{FindingState}
use kubeguard.Dashboard.Lifecycle.{is_risk_accepted, is_resolved, MttrSummary, count_state}

-- What a row adds to a summary: its state now, and how long it took, where that is measured.
abbrev pub Entry : Type 0
Entry = FindingState × Option ℕ

abbrev pub in_state : FindingState → FindingState → ℕ
in_state FindingState.state_open FindingState.state_open = 1
in_state FindingState.state_acknowledged FindingState.state_acknowledged = 1
in_state FindingState.state_in_progress FindingState.state_in_progress = 1
in_state FindingState.state_resolved FindingState.state_resolved = 1
in_state FindingState.state_risk_accepted FindingState.state_risk_accepted = 1
in_state x y = 0

-- How many entries are in the state.
abbrev pub count_in : FindingState → List Entry → ℕ
count_in x [] = 0
count_in x (e ∷ es) = in_state x e.0 + count_in x es

abbrev pub measured_of : Option ℕ → ℕ
measured_of none = 0
measured_of (some d) = 1

abbrev pub duration_of : Option ℕ → ℕ
duration_of none = 0
duration_of (some d) = d

abbrev pub count_measured : List Entry → ℕ
count_measured [] = 0
count_measured (e ∷ es) = measured_of e.1 + count_measured es

abbrev pub sum_durations : List Entry → ℕ
sum_durations [] = 0
sum_durations (e ∷ es) = duration_of e.1 + sum_durations es

-- From one summary to another by entries.
pub record Adds (es : List Entry) (s s' : MttrSummary) : Type 0 where
  pub opened : s'.opened ≡ s.opened + count_in FindingState.state_open es
  pub acknowledged : s'.acknowledged ≡ s.acknowledged + count_in FindingState.state_acknowledged es
  pub in_progress : s'.in_progress ≡ s.in_progress + count_in FindingState.state_in_progress es
  pub resolved : s'.resolved ≡ s.resolved + count_in FindingState.state_resolved es
  pub risk_accepted :
      s'.risk_accepted ≡ s.risk_accepted + count_in FindingState.state_risk_accepted es
  pub measured : s'.measured ≡ s.measured + count_measured es
  pub total : s'.total ≡ s.total + sum_durations es

pub Adds-nil : (s : MttrSummary) → Adds [] s s
Adds-nil s = record {
  opened = omega arith;
  acknowledged = omega arith;
  in_progress = omega arith;
  resolved = omega arith;
  risk_accepted = omega arith;
  measured = omega arith;
  total = omega arith;
}

pub Adds-cons :
    (e : Entry) (es : List Entry) (s t u : MttrSummary)
    → Adds (e ∷ []) s t
    → Adds es t u
    → Adds (e ∷ es) s u
Adds-cons e es s t u a b = record {
  opened = omega (arith, a.opened, b.opened);
  acknowledged = omega (arith, a.acknowledged, b.acknowledged);
  in_progress = omega (arith, a.in_progress, b.in_progress);
  resolved = omega (arith, a.resolved, b.resolved);
  risk_accepted = omega (arith, a.risk_accepted, b.risk_accepted);
  measured = omega (arith, a.measured, b.measured);
  total = omega (arith, a.total, b.total);
}

-- The same counters, and the time of one row more.
abbrev pub Timed : Option ℕ → MttrSummary → MttrSummary → Type 0
Timed o s s' =
    s' ≡ record s { total = s.total + duration_of o; measured = s.measured + measured_of o }

pub counted :
    (x : FindingState) (o : Option ℕ) (s : MttrSummary)
    → Adds ((x, o) ∷ []) s (record (count_state x s) {
      total = (count_state x s).total + duration_of o;
      measured = (count_state x s).measured + measured_of o;
    })
unfolding count_state
counted FindingState.state_open o s = record {
  opened = omega arith;
  acknowledged = omega arith;
  in_progress = omega arith;
  resolved = omega arith;
  risk_accepted = omega arith;
  measured = omega arith;
  total = omega arith;
}
counted FindingState.state_acknowledged o s = record {
  opened = omega arith;
  acknowledged = omega arith;
  in_progress = omega arith;
  resolved = omega arith;
  risk_accepted = omega arith;
  measured = omega arith;
  total = omega arith;
}
counted FindingState.state_in_progress o s = record {
  opened = omega arith;
  acknowledged = omega arith;
  in_progress = omega arith;
  resolved = omega arith;
  risk_accepted = omega arith;
  measured = omega arith;
  total = omega arith;
}
counted FindingState.state_resolved o s = record {
  opened = omega arith;
  acknowledged = omega arith;
  in_progress = omega arith;
  resolved = omega arith;
  risk_accepted = omega arith;
  measured = omega arith;
  total = omega arith;
}
counted FindingState.state_risk_accepted o s = record {
  opened = omega arith;
  acknowledged = omega arith;
  in_progress = omega arith;
  resolved = omega arith;
  risk_accepted = omega arith;
  measured = omega arith;
  total = omega arith;
}
counted (FindingState.state_other y) o s = record {
  opened = omega arith;
  acknowledged = omega arith;
  in_progress = omega arith;
  resolved = omega arith;
  risk_accepted = omega arith;
  measured = omega arith;
  total = omega arith;
}

pub count-Adds :
    (x : FindingState) (o : Option ℕ) (s t : MttrSummary)
    → Timed o (count_state x s) t
    → Adds ((x, o) ∷ []) s t
unfolding count_state
count-Adds x o s t e = rw e (counted x o s)

pub unmeasured : (s : MttrSummary) → Timed none s s
unmeasured s = ground arith

pub timed :
    (d : ℕ) (s : MttrSummary)
    → Timed (some d) s (record s { total = s.total + d; measured = suc s.measured })
timed d s = ground arith

pub is_resolved-eq : (x : FindingState) → is_resolved x ≡ true → x ≡ FindingState.state_resolved
is_resolved-eq FindingState.state_resolved y = refl
is_resolved-eq FindingState.state_open y = absurd (false-true y)
is_resolved-eq FindingState.state_acknowledged y = absurd (false-true y)
is_resolved-eq FindingState.state_in_progress y = absurd (false-true y)
is_resolved-eq FindingState.state_risk_accepted y = absurd (false-true y)
is_resolved-eq (FindingState.state_other x) y = absurd (false-true y)

pub unlapsed :
    (x : FindingState) → (if is_risk_accepted x && not true then FindingState.state_open else x) ≡ x
unlapsed FindingState.state_risk_accepted = refl
unlapsed FindingState.state_open = refl
unlapsed FindingState.state_acknowledged = refl
unlapsed FindingState.state_in_progress = refl
unlapsed FindingState.state_resolved = refl
unlapsed (FindingState.state_other y) = refl
