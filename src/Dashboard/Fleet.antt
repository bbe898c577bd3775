-- ===== src/Dashboard/Fleet.antt =====
-- What a store of internal/dashboard/memstore.go keeps of clusters, as a function of the tenant and the
-- cluster, and what a change of one partition is there.
use kubeguard.Prelude.{
  String, false, ◌&&◌, List, [], ◌∷◌, Option, none, some, ◌==◌, ◌≡◌, refl, ◌∙◌, inl, inr, arith,
  eq_iff, if◌then◌else◌, Bool-cases, Option-cases, get, set, get-set_same, get-set_other,
  get-delete_same, get-delete_other,
}
use kubeguard.Api.{Report}
use kubeguard.Dashboard.{Cluster, ClusterState, TenantState, MemStore, or_new, is_some}
use kubeguard.Dashboard.Store.{
  new_cluster_state, add_cluster, register_in, delete_in, record_in, cluster_named, record_at,
}
use kubeguard.Dashboard.Run.{Op}

-- The state of each cluster of each tenant.
abbrev pub Fleet : Type 0
Fleet = String → String → Option ClusterState

unfoldable pub or_fresh : Cluster → Option ClusterState → ClusterState
or_fresh c none = new_cluster_state c
or_fresh c (some cs) = cs

-- One cluster changes.
unfoldable pub put : String → String → Option ClusterState → Fleet → Fleet
put t id o s t' id' = if t == t' && id == id' then o else s t' id'

unfoldable pub spec_step : Op → Fleet → Fleet
unfolding put or_fresh
spec_step (Op.op_register t c) s = put t c.id (some (or_fresh c (s t c.id))) s
spec_step (Op.op_delete t id) s = put t id none s
spec_step (Op.op_record t id scan_id rep at) s =
    put t id (some (record_in id scan_id rep at (or_fresh (cluster_named id) (s t id)))) s
spec_step (Op.op_provision t display_name) s = s
spec_step (Op.op_erase t) s = λ t' id. if t == t' then none else s t' id
spec_step (Op.op_seed t id fs now) s = s
spec_step (Op.op_upsert t lc) s = s

unfoldable pub spec_replay : List Op → Fleet → Fleet
unfolding spec_step
spec_replay [] s = s
spec_replay (o ∷ os) s = spec_replay os (spec_step o s)

-- The fleet that a store stands for.
unfoldable pub fleet : MemStore → Fleet
unfolding or_new
fleet m t id = get id (or_new (get t m.tenants)).clusters

-- A new partition for `t` shows at `t` only.
pub fleet-set :
    (t : String) (ts : TenantState) (m : MemStore) (t' id : String)
    → fleet (record m { tenants = set t ts m.tenants }) t' id
      ≡ (if t == t' then get id ts.clusters else fleet m t' id)
unfolding fleet
fleet-set t ts m t' id = elim (Bool-cases (t == t')) [
  | inl e ↦ ground (arith, eq_iff t t', get-set_same t' ts m.tenants)
  | inr n ↦ rw (n, get-set_other t' t ts m.tenants (ground (arith, eq_iff t t'))) refl
]

pub get-set_lem :
    (k j : String) (cs : ClusterState) (ts : TenantState)
    → get j (set k cs ts.clusters) ≡ (if k == j then some cs else get j ts.clusters)
get-set_lem k j cs ts = elim (Bool-cases (k == j)) [
  | inl e ↦ ground (arith, eq_iff k j, get-set_same j cs ts.clusters)
  | inr n ↦ rw (n, get-set_other j k cs ts.clusters (ground (arith, eq_iff k j))) refl
]

pub register_in_lem :
    (c : Cluster) (ts : TenantState) (j : String)
    → get j (register_in c ts).clusters
      ≡ (if c.id == j then some (or_fresh c (get c.id ts.clusters)) else get j ts.clusters)
unfolding register_in add_cluster or_fresh is_some
register_in_lem c ts j = elim (Option-cases (get c.id ts.clusters)) [
  | inl e ↦ rw (e, register_in) (get-set_lem c.id j _ ts)
  | inr (cs, e) ↦
      rw (e, register_in)
        (elim (Bool-cases (c.id == j)) [
          | inl y ↦ ground (arith, eq_iff c.id j)
          | inr n ↦ rw n refl
        ])
]

pub record_at_lem :
    (id scan_id : String) (rep : Report) (at : String) (ts : TenantState) (j : String)
    → get j (record_at id scan_id rep at ts).clusters ≡ (
        if id == j
        then some (record_in id scan_id rep at (or_fresh (cluster_named id) (get id ts.clusters)))
        else get j ts.clusters)
unfolding record_at add_cluster or_fresh
record_at_lem id scan_id rep at ts j = elim (Option-cases (get id ts.clusters)) [
  | inl e ↦ rw (e, record_at) (get-set_lem id j _ ts)
  | inr (cs, e) ↦ rw (e, record_at) (get-set_lem id j _ ts)
]

pub delete_in_lem :
    (id : String) (ts : TenantState) (j : String)
    → get j (delete_in id ts).clusters ≡ (if id == j then none else get j ts.clusters)
unfolding delete_in
delete_in_lem id ts j = elim (Bool-cases (id == j)) [
  | inl e ↦ ground (arith, eq_iff id j, get-delete_same j ts.clusters)
  | inr n ↦ rw (n, get-delete_other j id ts.clusters (ground (arith, eq_iff id j))) refl
]

pub is_some-none : {A : Type 0} (o : Option A) → is_some o ≡ false → o ≡ none
unfolding is_some
is_some-none none h = refl
is_some-none (some cs) h = absurd (ground arith)

-- A partition that differs at one cluster changes the fleet there only.
pub set-put :
    (t id : String) (o : Option ClusterState) (ts : TenantState) (m : MemStore)
    → ((j : String)
        → get j ts.clusters ≡ (if id == j then o else get j (or_new (get t m.tenants)).clusters))
    → (t' id' : String)
    → fleet (record m { tenants = set t ts m.tenants }) t' id' ≡ put t id o (fleet m) t' id'
unfolding put
set-put t id o ts m h t' id' = fleet-set t ts m t' id' ∙ elim (Bool-cases (t == t')) [
  | inl e ↦ let same : t ≡ t' = (eq_iff t t').0 e in rw (e, h id', same) (unfold fleet in refl)
  | inr n ↦ rw n refl
]

-- To remove what is not there changes nothing.
pub none-put :
    (t id : String) (s : Fleet)
    → s t id ≡ none
    → (t' id' : String) → s t' id' ≡ put t id none s t' id'
unfolding put
none-put t id s h t' id' = elim (Bool-cases (t == t' && id == id')) [
  | inl e ↦
      let a : t ≡ t' = (eq_iff t t').0 (ground arith) in
      let b : id ≡ id' = (eq_iff id id').0 (ground arith) in rw (e, ← a, ← b) h
  | inr n ↦ rw n refl
]
