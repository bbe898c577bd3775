-- ===== src/Graph/Coverage.antt =====
-- internal/graph/coverage.go: how much of the inventory the checks assess.
pub mod Sums
use kubeguard.Prelude.{
  ℕ, suc, ◌-◌, String, Bool, List, [], ◌∷◌, ◌==◌, if◌then◌else◌, any, length, ltb,
}
use kubeguard.Api.{CoverageBreakdown, Rate}
use kubeguard.Model.{Resource}
use kubeguard.Graph.{Graph}

abbrev pub assessed_kinds : List String
assessed_kinds =
    "Pod" ∷ "Deployment" ∷ "StatefulSet" ∷ "DaemonSet" ∷ "Job" ∷ "CronJob" ∷ "ServiceAccount"
    ∷ "Role" ∷ "ClusterRole" ∷ "RoleBinding" ∷ "ClusterRoleBinding" ∷ "Service" ∷ "NetworkPolicy"
    ∷ "Namespace" ∷ []

unfoldable pub is_assessed : Resource → Bool
unfolding any
is_assessed r = any (λ k. k == r.kind) assessed_kinds

-- `m[k]++`
unfoldable pub tally : String → List (String × ℕ) → List (String × ℕ)
tally k [] = (k, 1) ∷ []
tally k ((j, n) ∷ m) = if j == k then (j, suc n) ∷ m else (j, n) ∷ tally k m

abbrev pub kind_label : Resource → String
kind_label r = if r.kind == "" then "(unknown)" else r.kind

-- The loop, over `Assessable` and `skipped`.
unfoldable pub count_resources : ℕ → List (String × ℕ) → List Resource → ℕ × List (String × ℕ)
unfolding is_assessed tally
count_resources assessable skipped [] = (assessable, skipped)
count_resources assessable skipped (r ∷ rs) =
    let more = count_resources (suc assessable) skipped rs in
    let less = count_resources assessable (tally (kind_label r) skipped) rs in
    if is_assessed r then more else less

-- The copy of `skipped` in the order of its keys is the same map.
unfoldable pub coverage : Graph → CoverageBreakdown
unfolding count_resources
coverage g =
    let discovered = length g.resources in
    let counts = count_resources 0 [] g.resources in
    record {
      discovered = discovered;
      assessable = counts.0;
      skipped = discovered - counts.0;
      rate = (if ltb 0 discovered then Rate.ratio counts.0 discovered else Rate.unset);
      skipped_by_kind = counts.1;
    }
