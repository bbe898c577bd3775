-- ===== src/Dashboard/Store.antt =====
-- internal/dashboard/memstore.go: the operations of `MemStore` that change it.
use kubeguard.Prelude.{
  ℕ, ◌+◌, String, Bool, true, false, not, List, [], ◌∷◌, ◌++◌, none, some, ◌==◌, ltb, if◌then◌else◌,
  length, filter, Dict, get, set, delete,
}
use kubeguard.Api.{Finding, FrameworkResult, Rate, Report}
use kubeguard.Dashboard.{
  Cluster, ScanStatus, Scan, HistorySnapshot, ClusterState, TenantState, FindingState,
  FindingLifecycle, MemStore, or_new, or_empty, is_some,
}

-- `&clusterState{meta: c}`
unfoldable pub new_cluster_state : Cluster → ClusterState
new_cluster_state c = record { meta = c; latest = none; scans = []; history = [] }

-- `ts.clusters[id] = cs; ts.order = append(ts.order, id)`
unfoldable pub add_cluster : String → ClusterState → TenantState → TenantState
add_cluster id cs ts = record ts { clusters = set id cs ts.clusters; order = ts.order ++ id ∷ [] }

-- What `RegisterCluster` does with the partition of the tenant.
unfoldable pub register_in : Cluster → TenantState → TenantState
unfolding add_cluster new_cluster_state is_some
register_in c ts =
    if is_some (get c.id ts.clusters) then ts else add_cluster c.id (new_cluster_state c) ts

unfoldable pub register_cluster : String → Cluster → MemStore → MemStore
unfolding register_in or_new
register_cluster tenant c m = record m {
  tenants = set tenant (register_in c (or_new (get tenant m.tenants))) m.tenants;
}

-- `append(ts.order[:i], ts.order[i+1:]...)` at the first place of the id.
unfoldable pub remove_first : String → List String → List String
remove_first id [] = []
remove_first id (j ∷ js) = let rest = remove_first id js in if j == id then js else j ∷ rest

unfoldable pub delete_in : String → TenantState → TenantState
unfolding remove_first
delete_in id ts = record ts { clusters = delete id ts.clusters; order = remove_first id ts.order }

-- The rows of the tenant that are of another cluster. Where the tenant has no rows, there are none.
unfoldable pub drop_rows : String → Dict FindingLifecycle → Dict FindingLifecycle
unfolding filter
drop_rows id d = filter (λ e. not (e.1.cluster_id == id)) d

unfoldable pub drop_lifecycle :
    String → String → Dict (Dict FindingLifecycle) → Dict (Dict FindingLifecycle)
unfolding drop_rows or_empty is_some
drop_lifecycle tenant id l =
    if is_some (get tenant l) then set tenant (drop_rows id (or_empty (get tenant l))) l else l

-- What `DeleteCluster` returns, and the store after it.
unfoldable pub delete_cluster : String → String → MemStore → Bool × MemStore
unfolding delete_in drop_lifecycle or_new is_some
delete_cluster tenant id m =
    if is_some (get tenant m.tenants)
    then (let ts = or_new (get tenant m.tenants) in
        if is_some (get id ts.clusters)
        then (
          true,
          record {
            tenants = set tenant (delete_in id ts) m.tenants;
            lifecycle = drop_lifecycle tenant id m.lifecycle;
          },
        )
        else (false, m))
    else (false, m)

-- The sums of the loop of `postureControls`.
unfoldable pub sum_controls : List FrameworkResult → ℕ × ℕ
sum_controls [] = (0, 0)
sum_controls (fw ∷ fws) =
    let rest = sum_controls fws in (fw.assessed + rest.0, fw.breached + rest.1)

unfoldable pub posture_controls : Report → ℕ × ℕ
unfolding sum_controls
posture_controls rep =
    if ltb 0 rep.posture.controls_assessed
    then (rep.posture.controls_assessed, rep.posture.controls_breached)
    else sum_controls rep.compliance

unfoldable pub scan_of : String → String → Report → String → Scan
scan_of id scan_id rep at = record {
  id = scan_id;
  cluster_id = id;
  status = ScanStatus.scan_succeeded;
  started_at = at;
  finished_at = at;
  total_findings = length rep.findings;
}

unfoldable pub snapshot_of : String → Report → String → HistorySnapshot
unfolding posture_controls
snapshot_of scan_id rep at = record {
  scan_id = scan_id;
  at = at;
  total_findings = length rep.findings;
  controls_assessed = (posture_controls rep).0;
  controls_breached = (posture_controls rep).1;
  overall_pass_rate = rep.posture.overall_pass_rate;
  by_severity = rep.posture.by_severity;
}

-- The assignments of `RecordScan` to the state of the cluster.
unfoldable pub record_in : String → String → Report → String → ClusterState → ClusterState
unfolding scan_of snapshot_of
record_in id scan_id rep at cs = record {
  meta = record cs.meta {
    last_scan_at = at;
    total_findings = length rep.findings;
    overall_pass_rate = rep.posture.overall_pass_rate;
  };
  latest = some rep;
  scans = scan_of id scan_id rep at ∷ cs.scans;
  history = cs.history ++ snapshot_of scan_id rep at ∷ [];
}

-- `Cluster{ID: clusterID, Name: clusterID}`
unfoldable pub cluster_named : String → Cluster
cluster_named id = record {
  id = id;
  name = id;
  environment = "";
  last_scan_at = "";
  total_findings = 0;
  overall_pass_rate = Rate.unset;
}

-- `RecordScan` on the partition: a cluster that is not registered is added first.
unfoldable pub record_at : String → String → Report → String → TenantState → TenantState
unfolding record_in cluster_named new_cluster_state add_cluster
record_at id scan_id rep at ts = elim (get id ts.clusters) [
  | none ↦ add_cluster id (record_in id scan_id rep at (new_cluster_state (cluster_named id))) ts
  | some cs ↦ record ts { clusters = set id (record_in id scan_id rep at cs) ts.clusters }
]

unfoldable pub record_scan : String → String → String → Report → String → MemStore → Scan × MemStore
unfolding record_at or_new scan_of
record_scan tenant id scan_id rep at m = (
  scan_of id scan_id rep at,
  record m {
    tenants = set tenant (record_at id scan_id rep at (or_new (get tenant m.tenants))) m.tenants;
  },
)

-- `ProvisionTenant`, which returns no error.
unfoldable pub provision_tenant : String → String → MemStore → MemStore
unfolding or_new
provision_tenant tenant display_name m =
    let ts = or_new (get tenant m.tenants) in
    record m {
      tenants =
          set tenant (if display_name == "" then ts else record ts { display_name = display_name })
            m.tenants;
    }

-- `DeleteTenant`, which returns no error.
unfoldable pub delete_tenant : String → MemStore → MemStore
delete_tenant tenant m = record {
  tenants = delete tenant m.tenants;
  lifecycle = delete tenant m.lifecycle;
}

-- `digest` is `hex.EncodeToString` of SHA-256 over the texts, with the byte 0 after each of them.
module _ (digest : List String → String) where
  unfoldable pub lifecycle_key : String → Finding → String
  lifecycle_key id f =
      digest (id ∷ f.id ∷ f.resource.kind ∷ f.resource.namespace ∷ f.resource.name ∷ [])

  -- The row that `SeedFindings` creates.
  unfoldable pub open_row : String → String → Finding → FindingLifecycle
  unfolding lifecycle_key
  open_row id now f = record {
    key = lifecycle_key id f;
    cluster_id = id;
    finding_id = f.id;
    resource = f.resource;
    state = FindingState.state_open;
    assignee = "";
    waiver = none;
    first_seen = now;
    last_updated = now;
    resolved_at = "";
  }

  unfoldable pub seed_row :
      String → String → Finding → Dict FindingLifecycle → Dict FindingLifecycle
  unfolding open_row is_some
  seed_row id now f d =
      if is_some (get (lifecycle_key id f) d)
      then d
      else set (lifecycle_key id f) (open_row id now f) d

  unfoldable pub seed_rows :
      String → String → List Finding → Dict FindingLifecycle → Dict FindingLifecycle
  unfolding seed_row
  seed_rows id now [] d = d
  seed_rows id now (f ∷ fs) d = seed_rows id now fs (seed_row id now f d)

  unfoldable pub seed_findings : String → String → List Finding → String → MemStore → MemStore
  unfolding seed_rows or_empty
  seed_findings tenant id fs now m = record m {
    lifecycle = set tenant (seed_rows id now fs (or_empty (get tenant m.lifecycle))) m.lifecycle;
  }

unfoldable pub upsert_lifecycle : String → FindingLifecycle → MemStore → MemStore
unfolding or_empty
upsert_lifecycle tenant lc m = record m {
  lifecycle = set tenant (set lc.key lc (or_empty (get tenant m.lifecycle))) m.lifecycle;
}
