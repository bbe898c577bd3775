-- ===== src/Dashboard/Isolated.antt =====
-- The reads of internal/dashboard/memstore.go for one tenant, under the calls of the others and after
-- the erasure of its data.
use mathlib.Core.Path.{ap₂}
use kubeguard.Prelude.{
  ℤ, String, List, [], ◌∷◌, none, some, ◌==◌, ◌≡◌, ◌≢◌, refl, ◌∙◌, ap, inl, inr, All, Bool-cases,
  filter, sort_stable, keys, MapRange, get, get-delete_same,
}
use kubeguard.Dashboard.{MemStore, new_mem_store, or_empty}
use kubeguard.Dashboard.Store.{delete_tenant}
use kubeguard.Dashboard.Reads.{
  list_clusters, get_cluster, list_scans, report, cluster_report, history, get_lifecycle, rows_at,
  sort_lifecycle, list_lifecycle,
}
use kubeguard.Dashboard.Run.{Op, tenant_of, replay}
use kubeguard.Dashboard.Isolation.{view, replay-view, apply-other}

-- Every read for the tenant has the same result.
pub record SameReads (t : String) (m m' : MemStore) : Type 0 where
  pub clusters : list_clusters t m ≡ list_clusters t m'
  pub cluster : (id : String) → get_cluster t id m ≡ get_cluster t id m'
  pub scans :
      (cluster : String) (limit offset : ℤ)
      → list_scans t cluster limit offset m ≡ list_scans t cluster limit offset m'
  pub reports : (id : String) → report t id m ≡ report t id m'
  pub snapshots : (cluster : String) → history t cluster m ≡ history t cluster m'
  pub row : (key : String) → get_lifecycle t key m ≡ get_lifecycle t key m'
  pub rows :
      (r : MapRange) (cluster : String)
      → list_lifecycle r t cluster m ≡ list_lifecycle r t cluster m'

pub view-SameReads : (t : String) (m m' : MemStore) → view t m ≡ view t m' → SameReads t m m'
unfolding list_clusters get_cluster list_scans report cluster_report history get_lifecycle
    list_lifecycle
view-SameReads t m m' e =
    let p : get t m.tenants ≡ get t m'.tenants = ap (λ v. v.0) e in
    let q : get t m.lifecycle ≡ get t m'.lifecycle = ap (λ v. v.1) e in
    record {
      clusters = rw (p, list_clusters) refl;
      cluster = λ id. rw (p, get_cluster) refl;
      scans = λ c l o. rw (p, list_scans) refl;
      reports = λ id. rw (p, report, cluster_report) refl;
      snapshots = λ c. rw (p, history) refl;
      row = λ k. rw (q, get_lifecycle) refl;
      rows = λ r c. rw (q, list_lifecycle) refl;
    }

-- No read for the tenant finds anything.
pub record IsForgotten (t : String) (m : MemStore) : Type 0 where
  pub clusters : list_clusters t m ≡ some []
  pub cluster : (id : String) → get_cluster t id m ≡ none
  pub scans :
      (cluster : String) (limit offset : ℤ) → list_scans t cluster limit offset m ≡ some ([], 0)
  pub reports : (id : String) → report t id m ≡ some none
  pub snapshots : (cluster : String) → history t cluster m ≡ some []
  pub row : (key : String) → get_lifecycle t key m ≡ none
  pub rows : (r : MapRange) (cluster : String) → list_lifecycle r t cluster m ≡ []

rows_at-none : (ks : List String) → rows_at [] ks ≡ []
unfolding rows_at get
rows_at-none [] = refl
rows_at-none (k ∷ ks) = rows_at-none ks

none-IsForgotten : (t : String) (m : MemStore) → view t m ≡ (none, none) → IsForgotten t m
unfolding list_clusters get_cluster list_scans report cluster_report history get_lifecycle or_empty
    list_lifecycle sort_lifecycle sort_stable filter
none-IsForgotten t m e =
    let p : get t m.tenants ≡ none = ap (λ v. v.0) e in
    let q : get t m.lifecycle ≡ none = ap (λ v. v.1) e in
    record {
      clusters = rw (p, list_clusters) refl;
      cluster = λ id. rw (p, get_cluster) refl;
      scans = λ c l o. rw (p, list_scans) refl;
      reports = λ id. elim (Bool-cases (id == "")) [
        | inl y ↦ rw (y, p, report) refl
        | inr n ↦ rw (n, p, cluster_report) refl
      ];
      snapshots = λ c. rw (p, history) refl;
      row = λ k. rw (q, get_lifecycle) (unfold get in refl);
      rows = λ r c. rw (q, list_lifecycle, rows_at-none (r.range (keys []))) refl;
    }

module _ (digest : List String → String) (t : String) where
  -- Tenants are isolated: after any calls on a new store, every read for a tenant has the result that
  -- it has after the calls for that tenant alone, in their order.
  pub replay-isolated :
      (os : List Op)
      → SameReads t
          (replay digest os new_mem_store)
          (replay digest (filter (λ o. tenant_of o == t) os) new_mem_store)
  replay-isolated os =
      view-SameReads t _ _ (replay-view digest t os new_mem_store new_mem_store refl)

  replay-others :
      (os : List Op) (m : MemStore)
      → All (λ o. tenant_of o ≢ t) os
      → view t (replay digest os m) ≡ view t m
  unfolding replay
  replay-others [] m h = refl
  replay-others (o ∷ os) m h = replay-others os _ h.1 ∙ apply-other digest t o m h.0

  -- After `DeleteTenant` no read finds anything of the tenant, whatever calls for other tenants follow.
  pub delete_tenant-IsForgotten :
      (m : MemStore) (later : List Op)
      → All (λ o. tenant_of o ≢ t) later
      → IsForgotten t (replay digest later (delete_tenant t m))
  delete_tenant-IsForgotten m later h = none-IsForgotten t _ (
      replay-others later (delete_tenant t m) h
      ∙ (unfold delete_tenant in
          ap₂ (λ a b. (a, b)) (get-delete_same t m.tenants) (get-delete_same t m.lifecycle)))
