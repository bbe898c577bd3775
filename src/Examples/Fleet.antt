-- ===== src/Examples/Fleet.antt =====
-- The theorems on the dashboard's store, pages, scans and summaries, at one cluster of one tenant.
use kubeguard.Prelude.{
  ℕ, ℤ, suc, ◌≤◌, pos, negsuc, String, List, [], ◌∷◌, map, Option, none, some, ◌==◌, ◌≡◌, ◌≢◌, ◌↔◌,
  ◌⊎◌, refl, All, Any, zero, false-true, eq_iff, if◌then◌else◌, arith, join, length, filter,
}
use kubeguard.Api.{Severity, Finding, Report}
use kubeguard.Dashboard.{
  Cluster, Scan, ScanStatus, HistorySnapshot, FindingState, FindingLifecycle, MemStore,
  new_mem_store, is_some,
}
use kubeguard.Dashboard.Store.{cluster_named}
use kubeguard.Dashboard.Reads.{
  list_clusters, list_scans, get_cluster, report, cluster_report, history,
}
use kubeguard.Dashboard.Run.{Op, tenant_of, replay}
use kubeguard.Dashboard.WellFormed.{count, bit}
use kubeguard.Dashboard.Invariant.{IsStore, replay-IsStore}
use kubeguard.Dashboard.NoPanic.{Known, reads_total}
use kubeguard.Dashboard.Fleet.{spec_replay}
use kubeguard.Dashboard.Refinement.{meta_of, report_of, lookups-fleet}
use kubeguard.Dashboard.Isolated.{SameReads, replay-isolated}
use kubeguard.Dashboard.Paginate.{paginate}
use kubeguard.Dashboard.Pages.{Overflows, paginate-panics, walk, walk_lem}
use kubeguard.Dashboard.Auth.{ApiState}
use kubeguard.Dashboard.Scans.{ScanResult, ScannerRun, Stamps, attempts, run_scan_with_id}
use kubeguard.Dashboard.ScanRuns.{Gives, run_scan-outcome, run_scan-retries}
use kubeguard.Dashboard.Triage.{fresh_row}
use kubeguard.Report.Asff.{asff_max_requirements, asff_requirements}
use kubeguard.Report.Requirements.{NoRepeat, asff_requirements-bounded}
use kubeguard.Gate.{GateResult, parse_severity, gate}
use kubeguard.Gate.Waived.{Harmless, Blocks, gate_lem}
use kubeguard.Examples.Data.{found, acceptance}

abbrev pub digest : List String → String
digest xs = join "/" xs

abbrev pub clock : String → Option ℕ
clock s = if s == "2030-01-01T00:00:00Z" then some 100 else none

abbrev pub scanned : Report
scanned = record kubeguard.Examples.Data.report { findings = found "KG-001" Severity.critical ∷ [] }

abbrev pub ops : List Op
ops =
    Op.op_register "acme" (cluster_named "prod")
    ∷ Op.op_record "acme" "prod" "scan-1" scanned "2029-01-01T00:00:00Z"
    ∷ Op.op_register "other" (cluster_named "test")
    ∷ Op.op_seed "acme" "prod" scanned.findings "2029-01-01T00:00:00Z"
    ∷ []

abbrev pub stored : MemStore
stored = replay digest ops new_mem_store

replay-IsStore_example : IsStore stored
replay-IsStore_example = replay-IsStore digest ops

reads_total_example :
    ((cs : List Cluster) × (list_clusters "acme" stored ≡ some cs)
      × ((id : String)
          → count id (map (λ c. c.id) cs) ≡ bit (is_some (get_cluster "acme" id stored))))
    × ((id : String) → (r : Option Report) × (report "acme" id stored ≡ some r))
    × ((cluster : String) → (hs : List HistorySnapshot) × (history "acme" cluster stored ≡ some hs))
    × ((cluster : String)
        → (xs : List Scan) × (list_scans "acme" cluster (pos 0) (pos 0) stored
            ≡ some (xs, length xs))
          × ((limit offset : ℤ)
              → (list_scans "acme" cluster limit offset stored ≡ none)
                ↔ (Known "acme" stored × Overflows (length xs) limit offset)))
reads_total_example = reads_total digest ops "acme"

lookups-fleet_example :
    (get_cluster "acme" "prod" stored ≡ meta_of (spec_replay ops (λ t id. none) "acme" "prod"))
    × (cluster_report "acme" "prod" stored
        ≡ report_of (spec_replay ops (λ t id. none) "acme" "prod"))
lookups-fleet_example = lookups-fleet digest ops "acme" "prod"

replay-isolated_example :
    SameReads "acme" stored (replay digest (filter (λ o. tenant_of o == "acme") ops) new_mem_store)
replay-isolated_example = replay-isolated digest "acme" ops

abbrev numbers : List ℕ
numbers = 1 ∷ 2 ∷ 3 ∷ []

paginate-panics_example :
    (paginate numbers (pos 2) (negsuc 0) ≡ none) ↔ Overflows (length numbers) (pos 2) (negsuc 0)
paginate-panics_example = paginate-panics numbers (pos 2) (negsuc 0)

walk_lem_example : walk numbers 2 2 0 ≡ some numbers
walk_lem_example = walk_lem numbers 1 2 (omega arith) (omega arith)

-- The first attempt fails.
abbrev pub flaky : ScannerRun
flaky = record {
  scanner =
      λ i. elim i [ zero ↦ ScanResult.scan_error "timeout" | suc j ↦ ScanResult.scan_ok scanned ];
  ctx_err = λ i. none;
}

abbrev pub stamps : Stamps
stamps = record { recorded = "t1"; seeded = "t2"; audited = "t3" }

abbrev pub running : ApiState
running = record {
  store = stored;
  audit = [];
  broker = record { subs = []; next = 0 };
  sources = [];
  pool = none;
}

run_scan-outcome_example :
    (((run_scan_with_id digest flaky stamps "acme" "prod" "ann" "scan-2" running).0.status
        ≡ ScanStatus.scan_failed)
      × ((run_scan_with_id digest flaky stamps "acme" "prod" "ann" "scan-2" running).1.store
          ≡ stored))
    ⊎ ((rep : Report) × Gives flaky 0 attempts rep
        × ((run_scan_with_id digest flaky stamps "acme" "prod" "ann" "scan-2" running).0.status
            ≡ ScanStatus.scan_succeeded)
        × (cluster_report "acme" "prod"
              (run_scan_with_id digest flaky stamps "acme" "prod" "ann" "scan-2" running).1.store
            ≡ some rep))
run_scan-outcome_example = run_scan-outcome digest flaky stamps "acme" "prod" "ann" "scan-2" running

run_scan-retries_example :
    (run_scan_with_id digest flaky stamps "acme" "prod" "ann" "scan-2" running).0.status
    ≡ ScanStatus.scan_succeeded
run_scan-retries_example =
    run_scan-retries digest flaky stamps "acme" "prod" "ann" "scan-2" running 1 scanned
      (omega arith) (λ j l. refl) refl

abbrev row : FindingLifecycle
row = fresh_row digest "prod" "2029-01-01T00:00:00Z" (found "KG-001" Severity.critical)

abbrev lapsed : FindingLifecycle
lapsed = record row {
  state = FindingState.state_risk_accepted;
  waiver = some (record {
    justification = "planned";
    approved_by = "ann";
    created_at = "2029-01-01T00:00:00Z";
    expires_at = "2030-01-01T00:00:00Z";
  });
}

abbrev closed : FindingLifecycle
closed = record row {
  state = FindingState.state_resolved;
  first_seen = "2030-01-01T00:00:00Z";
  resolved_at = "2030-01-01T00:00:00Z";
}

abbrev mapped : Finding
mapped = record (found "KG-001" Severity.critical) {
  refs =
      record { framework = "CIS"; id = "5.2.1"; title = "" }
      ∷ record { framework = "CIS"; id = "5.2.1"; title = "" }
      ∷ [];
}

asff_requirements-bounded_example :
    (length (asff_requirements (λ s. s) mapped) ≤ asff_max_requirements)
    × All (λ s. s ≢ "") (asff_requirements (λ s. s) mapped)
    × NoRepeat (asff_requirements (λ s. s) mapped)
asff_requirements-bounded_example = asff_requirements-bounded (λ s. s) mapped

gate_lem_example :
    ((gate "high" (some (acceptance ∷ [])) 7 scanned.findings ≡ GateResult.gate_passed)
      × All (Harmless (some (acceptance ∷ [])) 7 Severity.high) scanned.findings)
    ⊎ ((msg : String) × (gate "high" (some (acceptance ∷ [])) 7 scanned.findings
          ≡ GateResult.gate_hit msg)
        × Any (Blocks (some (acceptance ∷ [])) 7 Severity.high) scanned.findings)
gate_lem_example =
    gate_lem "high" (some (acceptance ∷ [])) 7 Severity.high scanned.findings
      (λ e. false-true ((eq_iff "high" "").1 e)) (unfold parse_severity in refl)
