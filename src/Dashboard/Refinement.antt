-- ===== src/Dashboard/Refinement.antt =====
-- The operations of `MemStore` of internal/dashboard/memstore.go as changes of its fleet, a function of
-- the tenant and the cluster, without partitions and listing orders.
use kubeguard.Prelude.{
  String, List, [], ◌∷◌, Option, none, some, ◌==◌, ◌≡◌, refl, ◌∙◌, inl, inr, arith, eq_iff,
  if◌then◌else◌, Bool-cases, Option-cases, get, get-delete_same, get-delete_other,
}
use mathlib.Core.Path.{ap, fun_ext}
use kubeguard.Api.{Report}
use kubeguard.Dashboard.{Cluster, ClusterState, MemStore, new_mem_store, or_new, is_some}
use kubeguard.Dashboard.Store.{
  register_cluster, delete_in, delete_cluster, record_scan, provision_tenant, delete_tenant,
  seed_findings, upsert_lifecycle,
}
use kubeguard.Dashboard.Reads.{get_cluster, cluster_report}
use kubeguard.Dashboard.Run.{Op, apply, replay}
use kubeguard.Dashboard.Fleet.{
  fleet-set, register_in_lem, record_at_lem, delete_in_lem, is_some-none, set-put, none-put, Fleet,
  put, spec_step, spec_replay, fleet,
}

delete_cluster_lem :
    (t id : String) (m : MemStore) (t' id' : String)
    → fleet (delete_cluster t id m).1 t' id' ≡ put t id none (fleet m) t' id'
unfolding delete_cluster fleet
delete_cluster_lem t id m t' id' =
    let ts = or_new (get t m.tenants) in
    let gone = none-put t id (fleet m) in
    elim (Bool-cases (is_some (get t m.tenants))) [
      | inl e ↦ elim (Bool-cases (is_some (get id ts.clusters))) [
        | inl f ↦ rw (e, f) (set-put t id none (delete_in id ts) m (delete_in_lem id ts) t' id')
        | inr f ↦ rw (e, f) (gone (unfold fleet in is_some-none _ f) t' id')
      ]
      | inr e ↦ rw e (gone (unfold fleet or_new get in rw (is_some-none _ e) refl) t' id')
    ]

erase_lem :
    (t : String) (m : MemStore) (t' id : String)
    → fleet (delete_tenant t m) t' id ≡ (if t == t' then none else fleet m t' id)
unfolding fleet delete_tenant or_new
erase_lem t m t' id = elim (Bool-cases (t == t')) [
  | inl e ↦
      let same : t ≡ t' = (eq_iff t t').0 e in
      rw (e, same, get-delete_same t' m.tenants) (unfold get in refl)
  | inr n ↦ rw (n, get-delete_other t' t m.tenants (ground (arith, eq_iff t t'))) refl
]

provision_lem :
    (t display_name : String) (m : MemStore) (t' id : String)
    → fleet (provision_tenant t display_name m) t' id ≡ fleet m t' id
unfolding provision_tenant
provision_lem t display_name m t' id = fleet-set t _ m t' id ∙ elim (Bool-cases (t == t')) [
  | inl e ↦
      let same : t ≡ t' = (eq_iff t t').0 e in
      elim (Bool-cases (display_name == "")) [
        | inl y ↦ rw (e, y, same) (unfold fleet in refl)
        | inr n ↦ rw (e, n, same) (unfold fleet in refl)
      ]
  | inr n ↦ rw n refl
]

unfoldable pub meta_of : Option ClusterState → Option Cluster
meta_of none = none
meta_of (some cs) = some cs.meta

unfoldable pub report_of : Option ClusterState → Option Report
report_of none = none
report_of (some cs) = cs.latest

get_cluster-fleet : (m : MemStore) (t id : String) → get_cluster t id m ≡ meta_of (fleet m t id)
unfolding get_cluster fleet or_new meta_of
get_cluster-fleet m t id = elim (Option-cases (get t m.tenants)) [
  | inl e ↦ rw (e, get_cluster) (unfold get in refl)
  | inr (ts, e) ↦ elim (Option-cases (get id ts.clusters)) [
    | inl f ↦ rw (e, get_cluster, f) refl
    | inr (cs, f) ↦ rw (e, get_cluster, f) refl
  ]
]

pub cluster_report-fleet :
    (m : MemStore) (t id : String) → cluster_report t id m ≡ report_of (fleet m t id)
unfolding cluster_report fleet or_new report_of
cluster_report-fleet m t id = elim (Option-cases (get t m.tenants)) [
  | inl e ↦ rw (e, cluster_report) (unfold get in refl)
  | inr (ts, e) ↦ elim (Option-cases (get id ts.clusters)) [
    | inl f ↦ rw (e, cluster_report, f) refl
    | inr (cs, f) ↦ rw (e, cluster_report, f) refl
  ]
]

module _ (digest : List String → String) where
  pub apply_lem :
      (o : Op) (m : MemStore) (t id : String)
      → fleet (apply digest o m) t id ≡ spec_step o (fleet m) t id
  unfolding apply spec_step register_cluster record_scan seed_findings upsert_lifecycle fleet
  apply_lem (Op.op_register t c) m t' id' =
      set-put t c.id _ _ m (register_in_lem c (or_new (get t m.tenants))) t' id'
  apply_lem (Op.op_delete t id) m t' id' = delete_cluster_lem t id m t' id'
  apply_lem (Op.op_record t id scan_id rep at) m t' id' =
      set-put t id _ _ m (record_at_lem id scan_id rep at (or_new (get t m.tenants))) t' id'
  apply_lem (Op.op_provision t display_name) m t' id' = provision_lem t display_name m t' id'
  apply_lem (Op.op_erase t) m t' id' = erase_lem t m t' id'
  apply_lem (Op.op_seed t id fs now) m t' id' = unfold fleet in refl
  apply_lem (Op.op_upsert t lc) m t' id' = unfold fleet in refl

  replay_from :
      (os : List Op) (m : MemStore) (s : Fleet)
      → ((t id : String) → fleet m t id ≡ s t id)
      → (t id : String) → fleet (replay digest os m) t id ≡ spec_replay os s t id
  unfolding replay spec_replay
  replay_from [] m s h t id = h t id
  replay_from (o ∷ os) m s h t id =
      replay_from os _ _
        (λ t' id'.
          apply_lem o m t' id'
          ∙ ap (λ x. spec_step o x t' id') (fun_ext (λ a. fun_ext (λ b. h a b))))
        t id

  -- The lookups of the store agree with the abstract fleet, a function of the tenant and the cluster
  -- that each call changes at its own tenant and cluster only: after any calls on a new store,
  -- `GetCluster` and `Report` of a cluster return what the fleet has there after the same calls.
  pub lookups-fleet :
      (os : List Op) (t id : String)
      → (get_cluster t id (replay digest os new_mem_store)
          ≡ meta_of (spec_replay os (λ t id. none) t id))
        × (cluster_report t id (replay digest os new_mem_store)
            ≡ report_of (spec_replay os (λ t id. none) t id))
  lookups-fleet os t id =
      let m = replay digest os new_mem_store in
      let e =
        replay_from os new_mem_store (λ t id. none)
          (λ t id. unfold fleet new_mem_store or_new get in refl) t id in
      (get_cluster-fleet m t id ∙ ap meta_of e, cluster_report-fleet m t id ∙ ap report_of e)
