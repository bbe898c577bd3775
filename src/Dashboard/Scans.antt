-- ===== src/Dashboard/Scans.antt =====
-- Scans of internal/dashboard/api.go, workers.go and scheduler.go: `RunScan` with its retries. The
-- scanner is an outside program: what it gives at each attempt is an argument, and so are the texts that
-- `a.now()` gives.
use kubeguard.Prelude.{ℕ, zero, suc, String, List, Option, none, some}
use kubeguard.Api.{Report}
use kubeguard.Dashboard.{ScanStatus, Scan, MemStore}
use kubeguard.Dashboard.Store.{record_scan, seed_findings}
use kubeguard.Dashboard.Audit.{AuditEntry}
use kubeguard.Dashboard.Broker.{Event, ScanJob, publish}
use kubeguard.Dashboard.Auth.{ApiState, log}

-- A report, or an error.
pub data ScanResult : Type 0 where
  scan_ok : Report → ScanResult
  scan_error : String → ScanResult

-- Attempt `i` of the scanner gives `scanner i`; after it `ctx.Err()` is `ctx_err i`, nil being `none`.
pub record ScannerRun : Type 0 where
  pub scanner : ℕ → ScanResult
  pub ctx_err : ℕ → Option String

-- The loop of `runScanner` from attempt `i` on, with so many attempts left.
unfoldable pub attempt_from : ScannerRun → ℕ → ℕ → String → ScanResult
attempt_from r zero i err = ScanResult.scan_error err
attempt_from r (suc left) i err = elim (r.scanner i) [
  | ScanResult.scan_ok rep ↦ ScanResult.scan_ok rep
  | ScanResult.scan_error e ↦ elim (r.ctx_err i) [
    | some c ↦ ScanResult.scan_error c
    | none ↦ attempt_from r left (suc i) e
  ]
]

abbrev pub attempts : ℕ
attempts = 3

unfoldable pub run_scanner : ScannerRun → ScanResult
unfolding attempt_from
run_scanner r = attempt_from r attempts 0 ""

-- The results of `a.now()`, in the order of the calls.
pub record Stamps : Type 0 where
  pub recorded : String
  pub seeded : String
  pub audited : String

unfoldable pub event : String → String → String → ℕ → String → Event
event kind id scan_id progress message = record {
  kind = kind;
  cluster_id = id;
  scan_id = scan_id;
  progress = progress;
  message = message;
}

unfoldable pub tell : String → Event → ApiState → ApiState
unfolding publish
tell tenant ev a = record a { broker = publish tenant ev a.broker }

unfoldable pub scan_entry : String → String → String → String → String → AuditEntry
scan_entry now tenant id subject result = record {
  at = now;
  subject = subject;
  tenant = tenant;
  action = "scan.trigger";
  resource = id;
  result = result;
}

unfoldable pub announce : String → String → String → ApiState → ApiState
unfolding tell event
announce tenant id scan_id a =
    tell tenant (event "scan_progress" id scan_id 50 "")
      (tell tenant (event "scan_started" id scan_id 0 "") a)

unfoldable pub scan_failed : Stamps → String → String → String → String → ApiState → Scan × ApiState
unfolding tell event log scan_entry
scan_failed t tenant id subject scan_id a = (
  record {
    id = scan_id;
    cluster_id = id;
    status = ScanStatus.scan_failed;
    started_at = "";
    finished_at = "";
    total_findings = 0;
  },
  log (scan_entry t.audited tenant id subject "failed")
      (tell tenant (event "scan_completed" id scan_id 0 "failed") a),
)

module _ (digest : List String → String) where
  -- The store after `RecordScan` and `SeedFindings`.
  unfoldable pub persist : Stamps → String → String → String → Report → MemStore → MemStore
  unfolding record_scan seed_findings
  persist t tenant id scan_id rep m =
      seed_findings digest tenant id rep.findings t.seeded
        (record_scan tenant id scan_id rep t.recorded m).1

  unfoldable pub scan_succeeded :
      Stamps → String → String → String → String → Report → ApiState → Scan × ApiState
  unfolding persist tell event log scan_entry
  scan_succeeded t tenant id subject scan_id rep a = (
    (record_scan tenant id scan_id rep t.recorded a.store).0,
    tell tenant (event "posture_updated" id "" 0 "") (
        tell tenant (event "scan_completed" id scan_id 100 "") (
          log (scan_entry t.audited tenant id subject "allowed")
            (record a { store = persist t tenant id scan_id rep a.store }))),
  )

  -- The metrics and the trace are not part of the state.
  unfoldable pub run_scan_with_id :
      ScannerRun → Stamps → String → String → String → String → ApiState → Scan × ApiState
  unfolding announce run_scanner scan_failed scan_succeeded
  run_scan_with_id r t tenant id subject scan_id a = elim (run_scanner r) [
    | ScanResult.scan_error e ↦
        scan_failed t tenant id subject scan_id (announce tenant id scan_id a)
    | ScanResult.scan_ok rep ↦
        scan_succeeded t tenant id subject scan_id rep (announce tenant id scan_id a)
  ]

  -- `runScanJob`
  unfoldable pub run_scan_job : ScannerRun → Stamps → ScanJob → ApiState → Scan × ApiState
  unfolding run_scan_with_id
  run_scan_job r t j a = run_scan_with_id r t j.tenant j.cluster_id j.subject j.scan_id a

  -- `RunOnce` of the scheduler, and each of its ticks.
  unfoldable pub run_once :
      ScannerRun → Stamps → String → String → String → ApiState → Scan × ApiState
  unfolding run_scan_with_id
  run_once r t tenant id scan_id a = run_scan_with_id r t tenant id "scheduler" scan_id a
