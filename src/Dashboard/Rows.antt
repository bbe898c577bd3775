-- ===== src/Dashboard/Rows.antt =====
-- A property of single rows, under the operations of internal/dashboard/memstore.go.
use kubeguard.Prelude.{
  String, List, [], ◌∷◌, some, ◌≡◌, inl, inr, Bool-cases, Option-cases, none-some, All, filter-All,
  get-All, Dict, get, set, delete, get-set_cases, get-delete_cases,
}
use kubeguard.Api.{Finding}
use kubeguard.Dashboard.{FindingLifecycle, MemStore, or_new, or_empty, is_some, new_mem_store}
use kubeguard.Dashboard.Store.{
  register_cluster, delete_cluster, drop_rows, drop_lifecycle, record_scan, provision_tenant,
  delete_tenant, lifecycle_key, open_row, seed_row, seed_rows, seed_findings, upsert_lifecycle,
}
use kubeguard.Dashboard.Reads.{get_lifecycle}
use kubeguard.Dashboard.Run.{Op, apply}

module _ (P : FindingLifecycle → Type 0) where
  -- Every row of every tenant has the property.
  unfoldable pub AllRows : MemStore → Type 0
  AllRows m =
      (t : String) (d : Dict FindingLifecycle) → get t m.lifecycle ≡ some d → All (λ e. P e.1) d

  pub new-AllRows : AllRows new_mem_store
  unfolding AllRows new_mem_store get
  new-AllRows t d h = absurd (none-some h)

  tenant_rows :
      (m : MemStore) (t : String) → AllRows m → All (λ e. P e.1) (or_empty (get t m.lifecycle))
  unfolding AllRows
  tenant_rows m t w = elim (Option-cases (get t m.lifecycle)) [
    | inl e ↦ rw e (unfold or_empty in tt)
    | inr (d, e) ↦ rw e (unfold or_empty in w t d e)
  ]

  pub get_lifecycle-AllRows :
      (m : MemStore) (t k : String) (lc : FindingLifecycle)
      → AllRows m
      → get_lifecycle t k m ≡ some lc
      → P lc
  unfolding get_lifecycle
  get_lifecycle-AllRows m t k lc w h = get-All (λ e. P e.1) k lc _ (tenant_rows m t w) h

  with_rows :
      (t : String) (d : Dict FindingLifecycle) (m : MemStore)
      → All (λ e. P e.1) d
      → AllRows m
      → AllRows (record m { lifecycle = set t d m.lifecycle })
  unfolding AllRows
  with_rows t d m r w t' d' h = elim (get-set_cases t' t d d' m.lifecycle h) [
    | inl (e, e') ↦ rw e' r
    | inr old ↦ w t' d' old
  ]

  pub upsert_lifecycle-AllRows :
      (t : String) (lc : FindingLifecycle) (m : MemStore)
      → P lc
      → AllRows m
      → AllRows (upsert_lifecycle t lc m)
  unfolding upsert_lifecycle set delete
  upsert_lifecycle-AllRows t lc m p w = with_rows t _ m (p, filter-All _ _ _ (tenant_rows m t w)) w

  drop_lifecycle-AllRows :
      (t id : String) (m : MemStore)
      → AllRows m
      → AllRows (record m { lifecycle = drop_lifecycle t id m.lifecycle })
  unfolding drop_lifecycle drop_rows
  drop_lifecycle-AllRows t id m w = elim (Bool-cases (is_some (get t m.lifecycle))) [
    | inl y ↦ rw y (with_rows t _ m (filter-All _ _ _ (tenant_rows m t w)) w)
    | inr n ↦ rw n w
  ]

  delete_cluster-AllRows :
      (t id : String) (m : MemStore) → AllRows m → AllRows (delete_cluster t id m).1
  unfolding delete_cluster AllRows
  delete_cluster-AllRows t id m w = elim (Bool-cases (is_some (get t m.tenants))) [
    | inl y ↦ elim (Bool-cases (is_some (get id (or_new (get t m.tenants)).clusters))) [
      | inl z ↦ rw (y, z) (drop_lifecycle-AllRows t id m w)
      | inr n ↦ rw (y, n) w
    ]
    | inr n ↦ rw n w
  ]

  module _ (digest : List String → String) where
    seed_rows-All :
        (id now : String) (fs : List Finding) (d : Dict FindingLifecycle)
        → ((f : Finding) → P (open_row digest id now f))
        → All (λ e. P e.1) d
        → All (λ e. P e.1) (seed_rows digest id now fs d)
    unfolding seed_rows seed_row set delete
    seed_rows-All id now [] d p r = r
    seed_rows-All id now (f ∷ fs) d p r =
        seed_rows-All id now fs _ p
          (elim (Bool-cases (is_some (get (lifecycle_key digest id f) d))) [
            | inl y ↦ rw y r
            | inr n ↦ rw n (p f, filter-All _ _ d r)
          ])

    -- What a call must put into the store for the property to stay.
    unfoldable pub OpRows : Op → Type 0
    OpRows (Op.op_register t c) = Unit
    OpRows (Op.op_delete t id) = Unit
    OpRows (Op.op_record t id scan_id rep at) = Unit
    OpRows (Op.op_provision t display_name) = Unit
    OpRows (Op.op_erase t) = Unit
    OpRows (Op.op_seed t id fs now) = (f : Finding) → P (open_row digest id now f)
    OpRows (Op.op_upsert t lc) = P lc

    pub apply-AllRows : (o : Op) (m : MemStore) → OpRows o → AllRows m → AllRows (apply digest o m)
    unfolding apply OpRows register_cluster record_scan provision_tenant delete_tenant seed_findings
        AllRows
    apply-AllRows (Op.op_register t c) m p w = w
    apply-AllRows (Op.op_delete t id) m p w = delete_cluster-AllRows t id m w
    apply-AllRows (Op.op_record t id scan_id rep at) m p w = w
    apply-AllRows (Op.op_provision t display_name) m p w = w
    apply-AllRows (Op.op_erase t) m p w = λ t' d h. w t' d (get-delete_cases t' t d m.lifecycle h).1
    apply-AllRows (Op.op_seed t id fs now) m p w =
        with_rows t _ m (seed_rows-All id now fs _ p (tenant_rows m t w)) w
    apply-AllRows (Op.op_upsert t lc) m p w = upsert_lifecycle-AllRows t lc m p w
