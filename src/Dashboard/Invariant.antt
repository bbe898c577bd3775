-- ===== src/Dashboard/Invariant.antt =====
-- The invariant of `MemStore` of internal/dashboard/memstore.go, kept by every operation.
use kubeguard.Prelude.{
  All, filter-All, delete, String, List, [], ◌∷◌, some, ◌==◌, ◌≡◌, refl, inl, inr, Bool-cases,
  Option-cases, none-some, Dict, get, set, get-set_cases, get-delete_cases,
}
use kubeguard.Api.{Finding}
use kubeguard.Dashboard.{
  TenantState, FindingLifecycle, MemStore, new_mem_store, or_new, or_empty, is_some,
}
use kubeguard.Dashboard.Store.{
  register_cluster, delete_cluster, drop_rows, drop_lifecycle, record_scan, provision_tenant,
  delete_tenant, lifecycle_key, open_row, seed_row, seed_rows, seed_findings, upsert_lifecycle,
}
use kubeguard.Dashboard.Run.{Op, apply, replay}
use kubeguard.Dashboard.WellFormed.{
  IsPartition, or_new-IsPartition, register_in-IsPartition, delete_in-IsPartition,
  record_at-IsPartition,
}

-- Every row stands under its own key.
unfoldable pub IsRows : Dict FindingLifecycle → Type 0
IsRows d = All (λ e. e.1.key ≡ e.0) d

pub record IsStore (m : MemStore) : Type 0 where
  pub partitions : (t : String) (ts : TenantState) → get t m.tenants ≡ some ts → IsPartition ts
  pub rows : (t : String) (d : Dict FindingLifecycle) → get t m.lifecycle ≡ some d → IsRows d

pub new-IsStore : IsStore new_mem_store
unfolding new_mem_store get
new-IsStore = record {
  partitions = λ t ts h. absurd (none-some h);
  rows = λ t d h. absurd (none-some h);
}

tenant-IsPartition :
    (t : String) (m : MemStore) → IsStore m → IsPartition (or_new (get t m.tenants))
tenant-IsPartition t m w = elim (Option-cases (get t m.tenants)) [
  | inl e ↦ rw e or_new-IsPartition
  | inr (ts, e) ↦ rw e (unfold or_new in w.partitions t ts e)
]

pub or_empty-IsRows :
    (t : String) (m : MemStore) → IsStore m → IsRows (or_empty (get t m.lifecycle))
or_empty-IsRows t m w = elim (Option-cases (get t m.lifecycle)) [
  | inl e ↦ rw e (unfold or_empty IsRows in tt)
  | inr (d, e) ↦ rw e (unfold or_empty in w.rows t d e)
]

with_partition :
    (t : String) (ts : TenantState) (m : MemStore)
    → IsPartition ts
    → IsStore m
    → IsStore (record m { tenants = set t ts m.tenants })
with_partition t ts m p w = record {
  partitions = λ t' ts' h. elim (get-set_cases t' t ts ts' m.tenants h) [
    | inl (e, e') ↦ rw e' p
    | inr old ↦ w.partitions t' ts' old
  ];
  rows = w.rows;
}

with_rows :
    (t : String) (d : Dict FindingLifecycle) (m : MemStore)
    → IsRows d
    → IsStore m
    → IsStore (record m { lifecycle = set t d m.lifecycle })
with_rows t d m r w = record {
  partitions = w.partitions;
  rows = λ t' d' h. elim (get-set_cases t' t d d' m.lifecycle h) [
    | inl (e, e') ↦ rw e' r
    | inr old ↦ w.rows t' d' old
  ];
}

pub set-IsRows :
    (k : String) (lc : FindingLifecycle) (d : Dict FindingLifecycle)
    → lc.key ≡ k
    → IsRows d
    → IsRows (set k lc d)
unfolding IsRows set delete
set-IsRows k lc d e r = (e, filter-All _ _ d r)

drop_lifecycle-IsStore :
    (t id : String) (m : MemStore)
    → IsStore m
    → IsStore (record m { lifecycle = drop_lifecycle t id m.lifecycle })
unfolding drop_lifecycle drop_rows IsRows
drop_lifecycle-IsStore t id m w = elim (Bool-cases (is_some (get t m.lifecycle))) [
  | inl y ↦
      rw y
        (with_rows t _ m (filter-All _ _ (or_empty (get t m.lifecycle)) (or_empty-IsRows t m w)) w)
  | inr n ↦ rw n w
]

delete_cluster-IsStore :
    (t id : String) (m : MemStore) → IsStore m → IsStore (delete_cluster t id m).1
unfolding delete_cluster
delete_cluster-IsStore t id m w = elim (Bool-cases (is_some (get t m.tenants))) [
  | inl y ↦ elim (Bool-cases (is_some (get id (or_new (get t m.tenants)).clusters))) [
    | inl z ↦
        rw (y, z)
          (drop_lifecycle-IsStore t id _
            (with_partition t _ m (delete_in-IsPartition id _ z (tenant-IsPartition t m w)) w))
    | inr n ↦ rw (y, n) w
  ]
  | inr n ↦ rw n w
]

provision_tenant-IsStore :
    (t display_name : String) (m : MemStore)
    → IsStore m
    → IsStore (provision_tenant t display_name m)
unfolding provision_tenant
provision_tenant-IsStore t display_name m w =
    let p = tenant-IsPartition t m w in
    with_partition t _ m
      (elim (Bool-cases (display_name == "")) [
        | inl y ↦ rw y p
        | inr n ↦ rw n (record { listed = p.listed; sound = p.sound })
      ])
      w

delete_tenant-IsStore : (t : String) (m : MemStore) → IsStore m → IsStore (delete_tenant t m)
unfolding delete_tenant
delete_tenant-IsStore t m w = record {
  partitions = λ t' ts h. w.partitions t' ts (get-delete_cases t' t ts m.tenants h).1;
  rows = λ t' d h. w.rows t' d (get-delete_cases t' t d m.lifecycle h).1;
}

module _ (digest : List String → String) where
  seed_rows-IsRows :
      (id now : String) (fs : List Finding) (d : Dict FindingLifecycle)
      → IsRows d
      → IsRows (seed_rows digest id now fs d)
  unfolding seed_rows seed_row open_row
  seed_rows-IsRows id now [] d r = r
  seed_rows-IsRows id now (f ∷ fs) d r =
      seed_rows-IsRows id now fs _
        (elim (Bool-cases (is_some (get (lifecycle_key digest id f) d))) [
          | inl y ↦ rw y r
          | inr n ↦ rw n (set-IsRows (lifecycle_key digest id f) _ d refl r)
        ])

  pub apply-IsStore : (o : Op) (m : MemStore) → IsStore m → IsStore (apply digest o m)
  unfolding apply register_cluster record_scan seed_findings upsert_lifecycle
  apply-IsStore (Op.op_register t c) m w =
      with_partition t _ m (register_in-IsPartition c _ (tenant-IsPartition t m w)) w
  apply-IsStore (Op.op_delete t id) m w = delete_cluster-IsStore t id m w
  apply-IsStore (Op.op_record t id scan_id rep at) m w =
      with_partition t _ m (record_at-IsPartition id scan_id rep at _ (tenant-IsPartition t m w)) w
  apply-IsStore (Op.op_provision t display_name) m w = provision_tenant-IsStore t display_name m w
  apply-IsStore (Op.op_erase t) m w = delete_tenant-IsStore t m w
  apply-IsStore (Op.op_seed t id fs now) m w =
      with_rows t _ m (seed_rows-IsRows id now fs _ (or_empty-IsRows t m w)) w
  apply-IsStore (Op.op_upsert t lc) m w =
      with_rows t _ m (set-IsRows lc.key lc _ refl (or_empty-IsRows t m w)) w

  replay_from : (os : List Op) (m : MemStore) → IsStore m → IsStore (replay digest os m)
  unfolding replay
  replay_from [] m w = w
  replay_from (o ∷ os) m w = replay_from os _ (apply-IsStore o m w)

  -- Whatever calls are made on a new store, the listing order of each tenant lists each of its
  -- registered clusters once and nothing else; each cluster stands under its own id, its scans are its
  -- own and as many as its snapshots, and its summary counts the findings of its latest report; and
  -- each triage row stands under its own key.
  pub replay-IsStore : (os : List Op) → IsStore (replay digest os new_mem_store)
  replay-IsStore os = replay_from os new_mem_store new-IsStore
