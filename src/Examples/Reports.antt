-- ===== src/Examples/Reports.antt =====
-- The theorems on risk, compliance and the analysis at a report with two findings.
use kubeguard.Prelude.{
  String, List, [], ◌∷◌, ◌≤◌, map, some, ◌≡◌, refl, none, true, All, Any, Perm, Ordered,
}
use kubeguard.Model.{Resource}
use kubeguard.Risk.{analyze_paths}
use kubeguard.Risk.Score.{score, score_finding}
use kubeguard.Risk.Bounds.{
  points_sum, RiskPrecedes, subject_of, subject, score-explained, score-IsSorted,
}
use kubeguard.Compliance.Evaluate.{evaluate, fired_checks}
use kubeguard.Compliance.Counts.{IsResult, evaluate_counts}
use kubeguard.Compliance.Evidence.{evidence_pack}
use kubeguard.Compliance.Evidence.Agreement.{evidence_pack-evaluate}
use kubeguard.Attack.Justified.{IsJustified}
use kubeguard.Graph.Build.{build}
use kubeguard.Checks.Profile.{zeal_default, profile_by_name}
use kubeguard.Analyzer.Backed.{analyze-IsJustified}
use kubeguard.Analyzer.{assemble, analyze}
use kubeguard.Api.{Report}
use kubeguard.Server.{Config, ScanInput, Answer, new_server, handle_report, serve_scans}
use kubeguard.Server.Served.{last_report, records, IsScanOf, handle_report-IsScanOf}
use kubeguard.Analyzer.Determinism.{analyze-MapRange_irrel}
use kubeguard.Examples.Data.{in_order, reversed, object, decoder, report, pack}

score-explained_example :
    All (λ r. (r.score ≡ points_sum r.factors) × (r.score ≤ 135)) (score report)
score-explained_example = score-explained report

score-IsSorted_example :
    Ordered RiskPrecedes (score report)
    × Perm (map subject_of (score report)) (map subject report.findings)
    × Perm
        (score report)
        (map (score_finding (analyze_paths report.paths) report.findings) report.findings)
score-IsSorted_example = score-IsSorted report

-- Both checks ran, and the privileged one fired.
abbrev executed : List String
executed = "KG-001" ∷ "KG-002" ∷ []

abbrev fired : List String
fired = "KG-001" ∷ []

evaluate_counts_example : IsResult executed fired pack.controls (evaluate pack executed fired)
evaluate_counts_example = evaluate_counts executed fired pack

evidence_pack-evaluate_example :
    ((evidence_pack report executed pack).assessed
      ≡ (evaluate pack executed (fired_checks report.findings)).assessed)
    × ((evidence_pack report executed pack).breached
        ≡ (evaluate pack executed (fired_checks report.findings)).breached)
    × ((evidence_pack report executed pack).passed
        ≡ (evaluate pack executed (fired_checks report.findings)).passed)
    × ((evidence_pack report executed pack).pass_rate
        ≡ (evaluate pack executed (fired_checks report.findings)).pass_rate)
evidence_pack-evaluate_example = evidence_pack-evaluate report executed pack

abbrev deployments : List Resource
deployments = object "Deployment" "shop" "web" ∷ object "Deployment" "bank" "ledger" ∷ []

analyze-MapRange_irrel_example :
    analyze decoder (λ s. s) in_order (some (pack ∷ [])) deployments "zeal-default" true []
    ≡ analyze decoder (λ s. s) reversed (some (pack ∷ [])) deployments "zeal-default" true []
analyze-MapRange_irrel_example =
    analyze-MapRange_irrel in_order reversed decoder (λ s. s) (some (pack ∷ [])) deployments
      "zeal-default" true []

analyzed :
    analyze decoder (λ s. s) in_order (some (pack ∷ [])) deployments "zeal-default" true []
    ≡ some (
        assemble decoder
          (λ s. s)
          in_order
          (pack ∷ [])
          zeal_default
          true
          []
          (build decoder in_order deployments))
unfolding analyze profile_by_name
analyzed = refl

analyze-IsJustified_example :
    All
      (IsJustified in_order (build decoder in_order deployments))
      (assemble decoder
        (λ s. s)
        in_order
        (pack ∷ [])
        zeal_default
        true
        []
        (build decoder in_order deployments)).paths
analyze-IsJustified_example =
    analyze-IsJustified decoder (λ s. s) in_order (some (pack ∷ [])) deployments "zeal-default" true
      [] _ analyzed

abbrev visits : List ScanInput
visits =
    record { loaded = some (deployments, "cluster"); now = "t1"; appended = true }
    ∷ record { loaded = none; now = "t2"; appended = true }
    ∷ []

abbrev setup : Config
setup = record { profile = ""; assume_breach = true; stored = true }

abbrev served_report : Report
served_report =
    record (assemble decoder (λ s. s) in_order (pack ∷ []) zeal_default true []
      (build decoder in_order deployments)) { generated_at = "t1"; source = "cluster" }

served :
    handle_report
      (serve_scans decoder (λ s. s) in_order (some (pack ∷ [])) visits (new_server setup))
    ≡ Answer.ok served_report
unfolding serve_scans handle_report new_server analyze profile_by_name
served = refl

handle_report-IsScanOf_example :
    (last_report decoder (λ s. s) in_order (some (pack ∷ [])) (new_server setup).cfg visits none
      ≡ some served_report)
    × Any (IsScanOf decoder (λ s. s) in_order (some (pack ∷ [])) served_report) visits
    × ((serve_scans decoder (λ s. s) in_order (some (pack ∷ [])) visits (new_server setup)).history
        ≡ records decoder (λ s. s) in_order (some (pack ∷ [])) (new_server setup).cfg visits)
handle_report-IsScanOf_example =
    handle_report-IsScanOf decoder (λ s. s) in_order (some (pack ∷ [])) setup visits served_report
      served
