-- ===== src/Dashboard/Reads.antt =====
-- internal/dashboard/memstore.go: the operations of `MemStore` that read it. `none` is a panic: a
-- listed cluster that has no entry, or a page out of range.
use kubeguard.Prelude.{
  ℕ, ℤ, String, Bool, not, ◌||◌, List, [], ◌∷◌, ◌++◌, Option, none, some, ◌==◌, str_lt,
  if◌then◌else◌, length, filter, sort_stable, MapRange, Dict, get, keys,
}
use kubeguard.Api.{Report}
use kubeguard.Dashboard.{
  Cluster, Scan, HistorySnapshot, ClusterState, FindingLifecycle, MemStore, or_empty,
}
use kubeguard.Dashboard.Paginate.{paginate}
use kubeguard.Dashboard.Merge.{merge_reports}

module _ {A : Type 0} where
  -- `for _, id := range ts.order { out = append(out, f(ts.clusters[id])...) }`
  unfoldable pub collect :
      (ClusterState → List A) → Dict ClusterState → List String → Option (List A)
  collect f clusters [] = some []
  collect f clusters (id ∷ ids) = elim (get id clusters) [
    | none ↦ none
    | some cs ↦ elim (collect f clusters ids) [ none ↦ none | some rest ↦ some (f cs ++ rest) ]
  ]

-- The ids that the filter on one cluster leaves, `""` being no filter.
unfoldable pub scoped : String → List String → List String
unfolding filter
scoped cluster ids = filter (λ id. cluster == "" || id == cluster) ids

unfoldable pub list_clusters : String → MemStore → Option (List Cluster)
unfolding collect
list_clusters tenant m = elim (get tenant m.tenants) [
  | none ↦ some []
  | some ts ↦ collect (λ cs. cs.meta ∷ []) ts.clusters ts.order
]

unfoldable pub get_cluster : String → String → MemStore → Option Cluster
get_cluster tenant id m = elim (get tenant m.tenants) [
  | none ↦ none
  | some ts ↦ elim (get id ts.clusters) [ none ↦ none | some cs ↦ some cs.meta ]
]

-- Newest first.
unfoldable pub scan_less : Scan → Scan → Bool
scan_less a b = str_lt b.started_at a.started_at

unfoldable pub page_of_scans : ℤ → ℤ → List Scan → Option (List Scan × ℕ)
unfolding paginate scan_less
page_of_scans limit offset scans = elim (paginate (sort_stable scan_less scans) limit offset) [
  | none ↦ none
  | some page ↦ some (page, length scans)
]

unfoldable pub list_scans : String → String → ℤ → ℤ → MemStore → Option (List Scan × ℕ)
unfolding collect scoped page_of_scans
list_scans tenant cluster limit offset m = elim (get tenant m.tenants) [
  | none ↦ some ([], 0)
  | some ts ↦ elim (collect (λ cs. cs.scans) ts.clusters (scoped cluster ts.order)) [
    | none ↦ none
    | some scans ↦ page_of_scans limit offset scans
  ]
]

-- The latest report, where the cluster has one.
unfoldable pub latest_of : ClusterState → List Report
latest_of cs = elim cs.latest [ none ↦ [] | some rep ↦ rep ∷ [] ]

-- `Report` of one cluster.
unfoldable pub cluster_report : String → String → MemStore → Option Report
cluster_report tenant id m = elim (get tenant m.tenants) [
  | none ↦ none
  | some ts ↦ elim (get id ts.clusters) [ none ↦ none | some cs ↦ cs.latest ]
]

-- `Report`: the inner option is its second result.
unfoldable pub report : String → String → MemStore → Option (Option Report)
unfolding cluster_report collect latest_of merge_reports
report tenant id m =
    if not (id == "") then some (cluster_report tenant id m) else elim (get tenant m.tenants) [
      | none ↦ some none
      | some ts ↦ elim (collect latest_of ts.clusters ts.order) [
        | none ↦ none
        | some reps ↦ some (some (merge_reports reps))
      ]
    ]

-- Oldest first.
unfoldable pub snapshot_less : HistorySnapshot → HistorySnapshot → Bool
snapshot_less a b = str_lt a.at b.at

unfoldable pub history : String → String → MemStore → Option (List HistorySnapshot)
unfolding collect scoped snapshot_less
history tenant cluster m = elim (get tenant m.tenants) [
  | none ↦ some []
  | some ts ↦ elim (collect (λ cs. cs.history) ts.clusters (scoped cluster ts.order)) [
    | none ↦ none
    | some snapshots ↦ some (sort_stable snapshot_less snapshots)
  ]
]

unfoldable pub get_lifecycle : String → String → MemStore → Option FindingLifecycle
unfolding or_empty
get_lifecycle tenant key m = get key (or_empty (get tenant m.lifecycle))

-- The `less` of `sortLifecycle`.
unfoldable pub lifecycle_less : FindingLifecycle → FindingLifecycle → Bool
lifecycle_less a b =
    if not (a.finding_id == b.finding_id)
    then str_lt a.finding_id b.finding_id
    else str_lt a.key b.key

unfoldable pub sort_lifecycle : List FindingLifecycle → List FindingLifecycle
unfolding lifecycle_less
sort_lifecycle = sort_stable lifecycle_less

-- The rows under the keys, in their order.
unfoldable pub rows_at : Dict FindingLifecycle → List String → List FindingLifecycle
rows_at d [] = []
rows_at d (k ∷ ks) = let rest = rows_at d ks in elim (get k d) [ none ↦ rest | some lc ↦ lc ∷ rest ]

unfoldable pub list_lifecycle : MapRange → String → String → MemStore → List FindingLifecycle
unfolding or_empty rows_at sort_lifecycle filter
list_lifecycle r tenant cluster m =
    let d = or_empty (get tenant m.lifecycle) in
    sort_lifecycle
      (filter (λ lc. cluster == "" || lc.cluster_id == cluster) (rows_at d (r.range (keys d))))
