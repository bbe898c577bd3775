-- ===== src/Analyzer/Determinism.antt =====
-- The report does not depend on the order in which Go ranges over maps.
use mathlib.Core.Path.{fun_ext}
use kubeguard.Prelude.{
  String, Bool, List, Option, none, some, ◌≡◌, ap, ◌∙◌, MapRange, sort_stable, range_sorted-irrel,
}
use kubeguard.Model.{Resource}
use kubeguard.Graph.{Graph}
use kubeguard.Graph.Decode.{Decoder}
use kubeguard.Graph.Build.{build}
use kubeguard.Checks.NetworkChecks.{network_policy_run}
use kubeguard.Checks.Profile.{Profile, profile_by_name}
use kubeguard.Checks.Scan.{registry, scan, scan_unsorted, sort_findings, runnable_ids}
use kubeguard.Compliance.Pack.{Pack}
use kubeguard.Analyzer.{ExtraChecks, assemble, analyze}

module _ (m n : MapRange) where
  pub build-irrel : (d : Decoder) (rs : List Resource) → build d m rs ≡ build d n rs
  unfolding build
  build-irrel d rs = rw (range_sorted-irrel m n)

  network_policy_run-irrel : network_policy_run m ≡ network_policy_run n
  unfolding network_policy_run
  network_policy_run-irrel = fun_ext λ g. rw (range_sorted-irrel m n)

  pub registry-irrel : registry m ≡ registry n
  unfolding registry
  registry-irrel = rw network_policy_run-irrel

  pub scan-irrel : (g : Graph) (p : Profile) → scan m g p ≡ scan n g p
  unfolding scan sort_findings scan_unsorted sort_stable
  scan-irrel g p = rw registry-irrel

  runnable_ids-irrel : (p : Profile) → runnable_ids m p ≡ runnable_ids n p
  unfolding runnable_ids
  runnable_ids-irrel p = rw registry-irrel

  assemble-irrel :
      (d : Decoder) (quote : String → String) (packs : List Pack) (p : Profile)
      (assume_breach : Bool) (extra : List ExtraChecks) (g : Graph)
      → assemble d quote m packs p assume_breach extra g
        ≡ assemble d quote n packs p assume_breach extra g
  unfolding assemble
  assemble-irrel d quote packs p assume_breach extra g = rw (scan-irrel g p, runnable_ids-irrel p)

  -- `Analyze` returns the same report, or the same failure, in whatever order the program ranges
  -- over the namespace maps of `Build` and of the NetworkPolicy check.
  pub analyze-MapRange_irrel :
      (d : Decoder) (quote : String → String) (packs : Option (List Pack))
      (resources : List Resource) (profile_name : String) (assume_breach : Bool)
      (extra : List ExtraChecks)
      → analyze d quote m packs resources profile_name assume_breach extra
        ≡ analyze d quote n packs resources profile_name assume_breach extra
  unfolding analyze
  analyze-MapRange_irrel d quote packs resources profile_name assume_breach extra = λ i.
      elim (profile_by_name profile_name) [
        | none ↦ none
        | some p ↦ elim packs [
          | none ↦ none
          | some ps ↦ some (
              (assemble-irrel d quote ps p assume_breach extra (build d m resources)
                  ∙ ap (assemble d quote n ps p assume_breach extra) (build-irrel d resources))
                i)
        ]
      ]
