-- ===== src/Analyzer.antt =====
-- internal/analyzer/analyzer.go: detect, chain and comply, assembled into a report.
pub mod Determinism
pub mod Backed
use kubeguard.Prelude.{ℕ, String, Bool, List, [], ◌∷◌, ◌++◌, Option, none, some, flat_map, MapRange}
use kubeguard.Api.{Finding, AttackPath, FrameworkResult, Report}
use kubeguard.Model.{Resource}
use kubeguard.Graph.{Graph}
use kubeguard.Graph.Decode.{Decoder}
use kubeguard.Graph.Build.{build}
use kubeguard.Graph.Coverage.{coverage}
use kubeguard.Checks.Profile.{Profile, profile_by_name}
use kubeguard.Checks.Scan.{scan, sort_findings, runnable_ids}
use kubeguard.Attack.Engine.{build_paths}
use kubeguard.Compliance.Pack.{Pack}
use kubeguard.Compliance.Evaluate.{evaluate_all, fired_checks, summarize}
use kubeguard.Risk.Score.{score}

-- The extra finding producers that are not nil.
abbrev pub ExtraChecks : Type 0
ExtraChecks = Graph → List Finding

module _ (d : Decoder) (quote : String → String) (m : MapRange) where
  -- The findings of the built-in and the extra checks, sorted.
  unfoldable pub all_findings : Graph → Profile → List ExtraChecks → List Finding
  unfolding flat_map
  all_findings g p extra = sort_findings (scan m g p ++ flat_map (λ ec. ec g) extra)

  unfoldable pub assemble : List Pack → Profile → Bool → List ExtraChecks → Graph → Report
  unfolding all_findings
  assemble packs p assume_breach extra g =
      let findings = all_findings g p extra in
      let paths = build_paths quote g assume_breach in
      let frameworks = evaluate_all packs (runnable_ids m p) (fired_checks findings) in
      let rep : Report = record {
        generated_at = "";
        source = "";
        profile = p.name;
        findings = findings;
        paths = paths;
        posture = summarize findings paths frameworks;
        compliance = frameworks;
        coverage = some (coverage g);
        top_risks = [];
      } in
      record rep { top_risks = score rep }

  -- `none` is an error: of the profile's name, or of `LoadEmbedded` (`packs`).
  unfoldable pub analyze :
      Option (List Pack) → List Resource → String → Bool → List ExtraChecks → Option Report
  unfolding assemble
  analyze packs resources profile_name assume_breach extra = elim (profile_by_name profile_name) [
    | none ↦ none
    | some p ↦ elim packs [
      | none ↦ none
      | some ps ↦ some (assemble ps p assume_breach extra (build d m resources))
    ]
  ]
