-- ===== src/Analyzer/Backed.antt =====
-- internal/analyzer/analyzer.go: the paths of a report and the findings of the same resources.
use kubeguard.Prelude.{
  String, Bool, List, Option, some, ◌≡◌, inl, inr, none-some, some_inj, Option-cases, All, MapRange,
}
use mathlib.Core.Path.{subst}
use kubeguard.Api.{Report}
use kubeguard.Model.{Resource}
use kubeguard.Graph.Decode.{Decoder}
use kubeguard.Graph.Build.{build}
use kubeguard.Graph.Build.Typed.{build-IsTyped}
use kubeguard.Checks.Profile.{profile_by_name}
use kubeguard.Compliance.Pack.{Pack}
use kubeguard.Attack.Justified.{IsJustified, build_paths-IsJustified}
use kubeguard.Analyzer.{ExtraChecks, assemble, analyze}

-- Every hop of every path of a report that `Analyze` returns names a check that fires under the
-- default profile on the graph of the same resources, but for a node access by KG-001 for a workload
-- that escapes by a capability only, and a lateral movement by KG-017 for a workload with no
-- namespace.
pub analyze-IsJustified :
    (d : Decoder) (quote : String → String) (m : MapRange) (packs : Option (List Pack))
    (resources : List Resource) (profile_name : String) (assume_breach : Bool)
    (extra : List ExtraChecks) (rep : Report)
    → analyze d quote m packs resources profile_name assume_breach extra ≡ some rep
    → All (IsJustified m (build d m resources)) rep.paths
unfolding analyze assemble
analyze-IsJustified d quote m packs resources profile_name assume_breach extra rep h =
    elim (Option-cases (profile_by_name profile_name)) [
      | inl e ↦ absurd (none-some (rw (e, analyze) at h))
      | inr (p, e) ↦ elim (Option-cases packs) [
        | inl e' ↦ absurd (none-some (rw (e, e', analyze) at h))
        | inr (ps, e') ↦
            subst (λ r. All (IsJustified m (build d m resources)) r.paths)
              (some_inj (rw (e, e', analyze) at h))
              (build_paths-IsJustified quote m (build d m resources) assume_breach
                (build-IsTyped d m resources))
      ]
    ]
