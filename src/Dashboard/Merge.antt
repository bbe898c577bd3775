-- ===== src/Dashboard/Merge.antt =====
-- `MergeReports` of internal/dashboard/memstore.go: the report of a whole tenant.
use kubeguard.Prelude.{◌+◌, List, [], ◌∷◌, ◌++◌, map, none, nonempty, ◌==◌, ltb, if◌then◌else◌}
use kubeguard.Api.{FrameworkResult, PostureSummary, Rate, Report}
use kubeguard.Risk.Score.{score}

-- `merged`, before the first report.
unfoldable pub empty_report : Report
empty_report = record {
  generated_at = "";
  source = "";
  profile = "";
  findings = [];
  paths = [];
  posture = record {
    total_findings = 0;
    by_severity = λ s. 0;
    critical_paths = 0;
    controls_assessed = 0;
    controls_breached = 0;
    overall_pass_rate = Rate.unset;
  };
  compliance = [];
  coverage = none;
  top_risks = [];
}

unfoldable pub add_posture : PostureSummary → PostureSummary → PostureSummary
add_posture p q = record {
  total_findings = p.total_findings + q.total_findings;
  by_severity = λ s. p.by_severity s + q.by_severity s;
  critical_paths = p.critical_paths + q.critical_paths;
  controls_assessed = p.controls_assessed + q.controls_assessed;
  controls_breached = p.controls_breached + q.controls_breached;
  overall_pass_rate = p.overall_pass_rate;
}

unfoldable pub add_result : FrameworkResult → FrameworkResult → FrameworkResult
add_result fw acc = record acc {
  assessed = acc.assessed + fw.assessed;
  breached = acc.breached + fw.breached;
  passed = acc.passed + fw.passed;
  breaches = acc.breaches ++ fw.breaches;
}

-- `seenFw` has the index of the first entry of each framework of `merged.Compliance`.
unfoldable pub add_framework : List FrameworkResult → FrameworkResult → List FrameworkResult
unfolding add_result
add_framework [] fw = fw ∷ []
add_framework (acc ∷ rest) fw =
    let later = add_framework rest fw in
    if acc.framework == fw.framework then add_result fw acc ∷ rest else acc ∷ later

unfoldable pub add_frameworks : List FrameworkResult → List FrameworkResult → List FrameworkResult
unfolding add_framework
add_frameworks acc [] = acc
add_frameworks acc (fw ∷ fws) = add_frameworks (add_framework acc fw) fws

-- One round of the loop over the reports.
unfoldable pub merge_into : Report → Report → Report
unfolding add_posture add_frameworks
merge_into merged r = record merged {
  findings = merged.findings ++ r.findings;
  paths = merged.paths ++ r.paths;
  posture = add_posture merged.posture r.posture;
  compliance = add_frameworks merged.compliance r.compliance;
}

unfoldable pub merge_all : Report → List Report → Report
unfolding merge_into
merge_all merged [] = merged
merge_all merged (r ∷ rs) = merge_all (merge_into merged r) rs

unfoldable pub set_pass_rate : FrameworkResult → FrameworkResult
set_pass_rate fw =
    if ltb 0 fw.assessed then record fw { pass_rate = Rate.ratio fw.passed fw.assessed } else fw

-- The pass rate over the fleet.
unfoldable pub set_overall : PostureSummary → PostureSummary
set_overall p =
    if ltb 0 p.controls_assessed
    then record p {
      overall_pass_rate =
          Rate.remainder p.controls_assessed p.controls_breached p.controls_assessed;
    }
    else p

-- The top risks are scored over the merged report.
unfoldable pub set_top_risks : Report → Report
set_top_risks r = if nonempty r.findings then record r { top_risks = score r } else r

unfoldable pub merge_reports : List Report → Report
unfolding empty_report merge_all set_pass_rate set_overall set_top_risks
merge_reports reps =
    let merged = merge_all empty_report reps in
    set_top_risks (record merged {
      compliance = map set_pass_rate merged.compliance;
      posture = set_overall merged.posture;
    })
