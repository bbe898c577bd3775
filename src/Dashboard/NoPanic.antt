-- ===== src/Dashboard/NoPanic.antt =====
-- The reads of internal/dashboard/memstore.go look up the clusters that the order of a tenant lists.
use kubeguard.Dashboard.Merge.{merge_reports}
use kubeguard.Prelude.{
  ℤ, pos, length, length-sort_stable, sym, ◌↔◌, none-some, sort_stable, String, List, [], ◌∷◌, ◌++◌,
  ◌∙◌, map, ◌≤◌, Option, none, some, ◌==◌, ◌≡◌, refl, inl, inr, arith, eq_iff, All, In, All-of_In,
  filter-All, Option-cases, Bool-cases, Dict, get,
}
use kubeguard.Api.{Report}
use kubeguard.Dashboard.{
  Cluster, Scan, HistorySnapshot, ClusterState, TenantState, MemStore, is_some, new_mem_store,
}
use kubeguard.Dashboard.Run.{Op, replay}
use kubeguard.Dashboard.Reads.{
  collect, scoped, list_clusters, get_cluster, latest_of, cluster_report, report, history,
  snapshot_less, scan_less, page_of_scans, list_scans,
}
use kubeguard.Dashboard.Paginate.{paginate}
use kubeguard.Dashboard.Pages.{Overflows, paginate-whole, paginate-panics}
use kubeguard.Dashboard.WellFormed.{count, bit, IsPartition}
use kubeguard.Dashboard.Invariant.{IsStore, replay-IsStore}

abbrev Has : Dict ClusterState → String → Type 0
Has clusters id = (cs : ClusterState) × (get id clusters ≡ some cs)

In-count : (id : String) (l : List String) → In id l → 1 ≤ count id l
unfolding count
In-count id [] i = elim i [ ]
In-count id (j ∷ js) (inl e) = ground (arith, eq_iff j id)
In-count id (j ∷ js) (inr i) = ground (arith, In-count id js i)

bit-Has :
    (id : String) (clusters : Dict ClusterState)
    → 1 ≤ bit (is_some (get id clusters))
    → Has clusters id
unfolding bit is_some
bit-Has id clusters h = elim (Option-cases (get id clusters)) [
  | inl e ↦ absurd (ground arith)
  | inr found ↦ found
]

order-Has : (ts : TenantState) → IsPartition ts → All (Has ts.clusters) ts.order
order-Has ts w =
    All-of_In ts.order
      (λ id i. bit-Has id ts.clusters (rw (← w.listed id) (In-count id ts.order i)))

module _ {A : Type 0} (f : ClusterState → List A) where
  collect_total :
      (clusters : Dict ClusterState) (ids : List String)
      → All (Has clusters) ids
      → (xs : List A) × (collect f clusters ids ≡ some xs)
  unfolding collect
  collect_total clusters [] h = ([], refl)
  collect_total clusters (id ∷ ids) h =
      let (cs, e) = h.0 in
      let (xs, es) = collect_total clusters ids h.1 in (f cs ++ xs, rw (e, collect, es) refl)

metas-ids :
    (clusters : Dict ClusterState) (ids : List String)
    → ((id : String) (c : ClusterState) → get id clusters ≡ some c → c.meta.id ≡ id)
    → All (Has clusters) ids
    → (cs : List Cluster) × (collect (λ c. c.meta ∷ []) clusters ids ≡ some cs)
      × (map (λ c. c.id) cs ≡ ids)
unfolding collect
metas-ids clusters [] own h = ([], refl, refl)
metas-ids clusters (id ∷ ids) own h =
    let (c, e) = h.0 in
    let (cs, es, is) = metas-ids clusters ids own h.1 in
    (c.meta ∷ cs, rw (e, collect, es) refl, rw (own id c e, is) refl)

is_some-meta :
    (o : Option ClusterState)
    → bit (is_some o)
      ≡ bit (is_some (elim o as (λ _. Option Cluster) [ none ↦ none | some cs ↦ some cs.meta ]))
unfolding is_some
is_some-meta none = refl
is_some-meta (some cs) = refl

module _ (limit offset : ℤ) (scans : List Scan) where
  page-none :
      page_of_scans limit offset scans ≡ none
      → paginate (sort_stable scan_less scans) limit offset ≡ none
  unfolding page_of_scans
  page-none h = elim (Option-cases (paginate (sort_stable scan_less scans) limit offset)) [
    | inl e ↦ e
    | inr (page, e) ↦ absurd (none-some (sym (rw (e, page_of_scans) at h)))
  ]

  none-page :
      paginate (sort_stable scan_less scans) limit offset ≡ none
      → page_of_scans limit offset scans ≡ none
  unfolding page_of_scans
  none-page e = rw (e, page_of_scans) refl

-- The store has a partition for the tenant.
abbrev pub Known : String → MemStore → Type 0
Known t m = (ts : TenantState) × (get t m.tenants ≡ some ts)

module _ (m : MemStore) (w : IsStore m) (t : String) where
  list_clusters_total :
      (cs : List Cluster) × (list_clusters t m ≡ some cs)
      × ((id : String) → count id (map (λ c. c.id) cs) ≡ bit (is_some (get_cluster t id m)))
  unfolding list_clusters get_cluster
  list_clusters_total = elim (Option-cases (get t m.tenants)) [
    | inl e ↦ (
      [],
      rw (e, list_clusters) refl,
      λ id. rw (e, get_cluster) (unfold count bit is_some in refl),
    )
    | inr (ts, e) ↦
        let p = w.partitions t ts e in
        let (cs, es, is) =
          metas-ids ts.clusters ts.order (λ id c f. (p.sound id c f).own) (order-Has ts p) in
        (
          cs,
          rw (e, list_clusters) es,
          λ id. rw (e, get_cluster, is) (p.listed id ∙ is_some-meta (get id ts.clusters)),
        )
  ]

  report_total : (id : String) → (r : Option Report) × (report t id m ≡ some r)
  unfolding report
  report_total id = elim (Bool-cases (id == "")) [
    | inl y ↦ elim (Option-cases (get t m.tenants)) [
      | inl e ↦ (none, rw (y, e, report) refl)
      | inr (ts, e) ↦
          let (reps, es) =
            collect_total latest_of ts.clusters ts.order (order-Has ts (w.partitions t ts e)) in
          (some (merge_reports reps), rw (y, e, report, es) refl)
    ]
    | inr n ↦ (cluster_report t id m, rw n refl)
  ]

  history_total : (cluster : String) → (hs : List HistorySnapshot) × (history t cluster m ≡ some hs)
  unfolding history scoped
  history_total cluster = elim (Option-cases (get t m.tenants)) [
    | inl e ↦ ([], rw (e, history) refl)
    | inr (ts, e) ↦
        let (hs, es) =
          collect_total (λ c. c.history) ts.clusters (scoped cluster ts.order)
            (filter-All _ _ ts.order (order-Has ts (w.partitions t ts e))) in
        (sort_stable snapshot_less hs, rw (e, history, es) refl)
  ]

  -- All the scans are what `ListScans` returns without a limit; when a page of them panics.
  list_scans_total :
      (cluster : String)
      → (xs : List Scan) × (list_scans t cluster (pos 0) (pos 0) m ≡ some (xs, length xs))
        × ((limit offset : ℤ)
            → (list_scans t cluster limit offset m ≡ none)
              ↔ (Known t m × Overflows (length xs) limit offset))
  unfolding list_scans scoped page_of_scans
  list_scans_total cluster = elim (Option-cases (get t m.tenants)) [
    | inl e ↦ (
      [],
      rw (e, list_scans) refl,
      λ limit offset. (
        λ h. absurd (none-some (sym (rw (e, list_scans) at h))),
        λ ((ts, f), o). absurd (none-some (sym e ∙ f)),
      ),
    )
    | inr (ts, e) ↦
        let (scans, es) =
          collect_total (λ c. c.scans) ts.clusters (scoped cluster ts.order)
            (filter-All _ _ ts.order (order-Has ts (w.partitions t ts e))) in
        let xs = sort_stable scan_less scans in
        (
          xs,
          rw
              (
                e,
                list_scans,
                es,
                paginate-whole xs,
                page_of_scans,
                length-sort_stable scan_less scans,
              )
              refl,
          λ limit offset. (
            λ h. (
              (ts, e),
              (paginate-panics xs limit offset).0
                  (page-none limit offset scans (rw (e, list_scans, es) at h)),
            ),
            λ (k, o).
                rw (e, list_scans, es)
                  (none-page limit offset scans ((paginate-panics xs limit offset).1 o)),
          ),
        )
  ]

module _ (digest : List String → String) (os : List Op) (t : String) where
  -- Whatever calls were made on a new store: the listing of a tenant's clusters returns, with each
  -- cluster that `GetCluster` finds once and no other; `Report` and `History` meet no listed cluster that
  -- is missing; and `ListScans` returns, unless the store knows the tenant and the page is cut out of
  -- range, by a negative offset or a positive limit whose sum with the offset, cut to the number of the
  -- scans, is more than the largest `int`.
  pub reads_total :
      ((cs : List Cluster) × (list_clusters t (replay digest os new_mem_store) ≡ some cs)
        × ((id : String)
            → count id (map (λ c. c.id) cs)
              ≡ bit (is_some (get_cluster t id (replay digest os new_mem_store)))))
      × ((id : String)
          → (r : Option Report) × (report t id (replay digest os new_mem_store) ≡ some r))
      × ((cluster : String)
          → (hs : List HistorySnapshot) × (history t cluster (replay digest os new_mem_store)
              ≡ some hs))
      × ((cluster : String)
          → (xs : List Scan) × (list_scans t cluster
                (pos 0)
                (pos 0)
                (replay digest os new_mem_store)
              ≡ some (xs, length xs))
            × ((limit offset : ℤ)
                → (list_scans t cluster limit offset (replay digest os new_mem_store) ≡ none) ↔ (
                    Known t (replay digest os new_mem_store) × Overflows (length xs) limit offset)))
  reads_total =
      let w = replay-IsStore digest os in
      (list_clusters_total _ w t, report_total _ w t, history_total _ w t, list_scans_total _ w t)
