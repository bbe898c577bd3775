-- ===== src/Dashboard/ScanRuns.antt =====
-- What a scan of internal/dashboard/api.go leaves behind.
use kubeguard.Prelude.{
  ℕ, zero, suc, ◌+◌, ◌<◌, ◌≤◌, String, List, none, some, ◌≡◌, refl, sym, ◌∙◌, ap, ◌⊎◌, inl, inr,
  arith, Option-cases, eq_refl,
}
use kubeguard.Api.{Report}
use kubeguard.Dashboard.{ClusterState, ScanStatus, MemStore}
use kubeguard.Dashboard.Store.{record_scan, scan_of, record_in, cluster_named}
use kubeguard.Dashboard.Reads.{cluster_report}
use kubeguard.Dashboard.Run.{Op, apply}
use kubeguard.Dashboard.Fleet.{or_fresh, Fleet, fleet, spec_step, put}
use kubeguard.Dashboard.Refinement.{report_of, apply_lem, cluster_report-fleet}
use kubeguard.Dashboard.Auth.{ApiState, log}
use kubeguard.Dashboard.Scans.{
  ScanResult, ScannerRun, attempt_from, attempts, run_scanner, Stamps, tell, announce, scan_failed,
  persist, scan_succeeded, run_scan_with_id,
}

pub ScanResult-cases :
    (r : ScanResult)
    → ((rep : Report) × (r ≡ ScanResult.scan_ok rep))
      ⊎ ((e : String) × (r ≡ ScanResult.scan_error e))
ScanResult-cases (ScanResult.scan_ok rep) = inl (rep, refl)
ScanResult-cases (ScanResult.scan_error e) = inr (e, refl)

error_not_ok : {e : String} {rep : Report} → ScanResult.scan_error e ≡ ScanResult.scan_ok rep → ⊥
error_not_ok h = cc

nat-cases : (i k : ℕ) → i ≤ k → (i ≡ k) ⊎ (i < k)
nat-cases i k h = ground arith

-- Some attempt from `i` on and before `n` gives the report.
abbrev pub Gives : ScannerRun → ℕ → ℕ → Report → Type 0
Gives r i n rep = (k : ℕ) × (i ≤ k) × (k < n) × (r.scanner k ≡ ScanResult.scan_ok rep)

attempt_from_lem :
    (r : ScannerRun) (left i : ℕ) (err : String) (rep : Report)
    → attempt_from r left i err ≡ ScanResult.scan_ok rep
    → Gives r i (i + left) rep
unfolding attempt_from
attempt_from_lem r zero i err rep h = absurd (ground arith)
attempt_from_lem r (suc left) i err rep h = elim (ScanResult-cases (r.scanner i)) [
  | inl (rep', e) ↦ (i, omega arith, omega arith, e ∙ (rw (e, attempt_from) at h))
  | inr (x, e) ↦ elim (Option-cases (r.ctx_err i)) [
    | inl c ↦
        let (k, a, b, y) = attempt_from_lem r left (suc i) x rep (rw (e, attempt_from, c) at h) in
        (k, omega arith, omega arith, y)
    | inr (z, c) ↦ absurd (error_not_ok (rw (e, attempt_from, c) at h))
  ]
]

-- Attempts are made until one gives a report or the context ends.
attempt_from_total :
    (r : ScannerRun) (left i k : ℕ) (err : String) (rep : Report)
    → i ≤ k
    → k < i + left
    → ((j : ℕ) → j < k → r.ctx_err j ≡ none)
    → r.scanner k ≡ ScanResult.scan_ok rep
    → (rep' : Report) × (attempt_from r left i err ≡ ScanResult.scan_ok rep')
unfolding attempt_from
attempt_from_total r zero i k err rep a b c h = absurd (omega arith)
attempt_from_total r (suc left) i k err rep a b c h = elim (ScanResult-cases (r.scanner i)) [
  | inl (rep', e) ↦ (rep', rw (e, attempt_from) refl)
  | inr (x, e) ↦ elim (nat-cases i k a) [
    | inl same ↦ absurd (error_not_ok (sym e ∙ ap r.scanner same ∙ h))
    | inr less ↦
        let (rep', y) = attempt_from_total r left (suc i) k x rep less (omega arith) c h in
        (rep', rw (e, attempt_from, c i less) y)
  ]
]

put-report :
    (tenant id scan_id : String) (rep : Report) (at : String) (cs : ClusterState) (s : Fleet)
    → report_of (put tenant id (some (record_in id scan_id rep at cs)) s tenant id) ≡ some rep
unfolding put report_of record_in
put-report tenant id scan_id rep at cs s = rw (eq_refl tenant, eq_refl id) refl

module _ (digest : List String → String) where
  persist-report :
      (t : Stamps) (tenant id scan_id : String) (rep : Report) (m : MemStore)
      → cluster_report tenant id (persist digest t tenant id scan_id rep m) ≡ some rep
  unfolding persist apply spec_step
  persist-report t tenant id scan_id rep m =
      let m' = (record_scan tenant id scan_id rep t.recorded m).1 in
      cluster_report-fleet (persist digest t tenant id scan_id rep m) tenant id
      ∙ ap report_of (
          apply_lem digest (Op.op_seed tenant id rep.findings t.seeded) m' tenant id
          ∙ apply_lem digest (Op.op_record tenant id scan_id rep t.recorded) m tenant id)
      ∙ put-report tenant id scan_id rep t.recorded
          (or_fresh (cluster_named id) (fleet m tenant id)) (fleet m)

  module _ (r : ScannerRun) (t : Stamps) (tenant id subject scan_id : String) (a : ApiState) where
    -- A scan either fails, and then the store is what it was, or one of the first three attempts of the
    -- scanner gave a report, the scan succeeds, and that report is the cluster's from then on.
    pub run_scan-outcome :
        (((run_scan_with_id digest r t tenant id subject scan_id a).0.status
            ≡ ScanStatus.scan_failed)
          × ((run_scan_with_id digest r t tenant id subject scan_id a).1.store ≡ a.store))
        ⊎ ((rep : Report) × Gives r 0 attempts rep
            × ((run_scan_with_id digest r t tenant id subject scan_id a).0.status
                ≡ ScanStatus.scan_succeeded)
            × (cluster_report tenant id
                  (run_scan_with_id digest r t tenant id subject scan_id a).1.store
                ≡ some rep))
    unfolding run_scan_with_id run_scanner scan_failed scan_succeeded tell log announce record_scan
        scan_of
    run_scan-outcome = elim (ScanResult-cases (run_scanner r)) [
      | inl (rep, e) ↦ inr (
        rep,
        attempt_from_lem r attempts 0 "" rep e,
        rw (e, run_scan_with_id) refl,
        rw (e, run_scan_with_id) (persist-report t tenant id scan_id rep a.store),
      )
      | inr (x, e) ↦ inl (rw (e, run_scan_with_id) refl, rw (e, run_scan_with_id) refl)
    ]

    -- A scan succeeds if one of the first three attempts of the scanner gives a report and the context
    -- has not ended before that attempt.
    pub run_scan-retries :
        (k : ℕ) (rep : Report)
        → k < attempts
        → ((j : ℕ) → j < k → r.ctx_err j ≡ none)
        → r.scanner k ≡ ScanResult.scan_ok rep
        → (run_scan_with_id digest r t tenant id subject scan_id a).0.status
          ≡ ScanStatus.scan_succeeded
    unfolding run_scan_with_id run_scanner scan_succeeded record_scan scan_of
    run_scan-retries k rep l c h =
        let (rep', e) = attempt_from_total r attempts 0 k "" rep (omega arith) l c h in
        rw (e, run_scan_with_id) refl
