-- ===== src/Server.antt =====
-- internal/server/server.go: the service that scans, keeps the last report and answers from it. What the
-- loader gives, the clock reads and whether the history takes a record are inputs of each scan.
pub mod Served
use kubeguard.Prelude.{
  ℕ, String, Bool, true, false, List, [], ◌∷◌, ◌++◌, Option, none, some, ◌==◌, if◌then◌else◌, map,
  length, MapRange, Dict, set,
}
use kubeguard.Api.{Severity, Rate, Finding, FrameworkResult, PostureSummary, Report}
use kubeguard.Model.{Resource}
use kubeguard.Graph.Decode.{Decoder}
use kubeguard.Compliance.Pack.{Pack}
use kubeguard.Analyzer.{analyze}
use kubeguard.History.{Record, from_report}

-- `Config`; `stored` tells whether there is a `Store`.
pub record Config : Type 0 where
  pub profile : String
  pub assume_breach : Bool
  pub stored : Bool

-- The gauges.
pub record Metrics : Type 0 where
  pub findings_total : List (Severity × ℕ)
  pub pass_rate : Dict Rate
  pub paths_total : ℕ

pub record Server : Type 0 where
  pub cfg : Config
  pub latest : Report
  pub has_scan : Bool
  pub metrics : Metrics
  pub history : List Record

-- `loaded` is `none` where the loader fails, else the resources and the source; `appended` tells whether
-- `Append` succeeds.
pub record ScanInput : Type 0 where
  pub loaded : Option (List Resource × String)
  pub now : String
  pub appended : Bool

-- `api.Report{}`
abbrev pub zero_report : Report
zero_report = record {
  generated_at = "";
  source = "";
  profile = "";
  findings = [];
  paths = [];
  posture = record {
    total_findings = 0;
    by_severity = λ s. 0;
    critical_paths = 0;
    controls_assessed = 0;
    controls_breached = 0;
    overall_pass_rate = Rate.unset;
  };
  compliance = [];
  coverage = none;
  top_risks = [];
}

unfoldable pub new_server : Config → Server
new_server cfg = record {
  cfg = record cfg { profile = if cfg.profile == "" then "zeal-default" else cfg.profile };
  latest = zero_report;
  has_scan = false;
  metrics = record { findings_total = []; pass_rate = []; paths_total = 0 };
  history = [];
}

unfoldable pub set_rates : List FrameworkResult → Dict Rate → Dict Rate
set_rates [] d = d
set_rates (fw ∷ fws) d = set_rates fws (set fw.framework fw.pass_rate d)

unfoldable pub update_metrics : Report → Metrics
unfolding set_rates
update_metrics rep = record {
  findings_total =
      map (λ s. (s, rep.posture.by_severity s))
        (Severity.critical ∷ Severity.high ∷ Severity.medium ∷ Severity.low ∷ []);
  pass_rate = set_rates rep.compliance [];
  paths_total = length rep.paths;
}

unfoldable pub append_history : Bool → Report → List Record → List Record
unfolding from_report
append_history written rep rs = if written then rs ++ from_report rep ∷ [] else rs

unfoldable pub snapshot : Server → Option Report
snapshot s = if s.has_scan then some s.latest else none

-- A status with the body of success; the text of an error is left out.
pub data Answer (B : Type 0) : Type 0 where
  ok : B → Answer B
  failed : ℕ → Answer B

unfoldable pub handle_findings : Server → Answer (List Finding)
unfolding snapshot
handle_findings s = elim (snapshot s) [
  | none ↦ Answer.failed 503
  | some rep ↦ Answer.ok rep.findings
]

unfoldable pub handle_posture : Server → Answer (PostureSummary × List FrameworkResult)
unfolding snapshot
handle_posture s = elim (snapshot s) [
  | none ↦ Answer.failed 503
  | some rep ↦ Answer.ok (rep.posture, rep.compliance)
]

unfoldable pub handle_report : Server → Answer Report
unfolding snapshot
handle_report s = elim (snapshot s) [ none ↦ Answer.failed 503 | some rep ↦ Answer.ok rep ]

unfoldable pub handle_readyz : Server → Answer String
unfolding snapshot
handle_readyz s = elim (snapshot s) [ none ↦ Answer.failed 503 | some rep ↦ Answer.ok "ready" ]

module _ (d : Decoder) (quote : String → String) (m : MapRange) (packs : Option (List Pack)) where
  -- The report of a scan, where it has no error.
  unfoldable pub scan_report : Config → ScanInput → Option Report
  unfolding analyze
  scan_report cfg i = elim i.loaded [
    | none ↦ none
    | some (resources, source) ↦
        elim (analyze d quote m packs resources cfg.profile cfg.assume_breach []) [
          | none ↦ none
          | some rep ↦ some (record rep { generated_at = i.now; source = source })
        ]
  ]

  unfoldable pub scan_once : ScanInput → Server → Option Report × Server
  unfolding scan_report update_metrics append_history
  scan_once i s = elim (scan_report s.cfg i) [
    | none ↦ (none, s)
    | some rep ↦ (
      some rep,
      record s {
        latest = rep;
        has_scan = true;
        metrics = update_metrics rep;
        history = if s.cfg.stored then append_history i.appended rep s.history else s.history;
      },
    )
  ]

  unfoldable pub handle_scan : ScanInput → Server → Answer Report × Server
  unfolding scan_once
  handle_scan i s =
      let (o, s') = scan_once i s in
      elim o [ none ↦ (Answer.failed 500, s') | some rep ↦ (Answer.ok rep, s') ]

  -- `ScanOnce` for requests, for the schedule and at the start, one after another.
  unfoldable pub serve_scans : List ScanInput → Server → Server
  unfolding scan_once
  serve_scans [] s = s
  serve_scans (i ∷ is) s = serve_scans is (scan_once i s).1
