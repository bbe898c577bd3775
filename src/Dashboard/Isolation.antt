-- ===== src/Dashboard/Isolation.antt =====
-- What one tenant sees of `MemStore` of internal/dashboard/memstore.go depends on its own calls only.
use mathlib.Core.Path.{ap₂}
use kubeguard.Prelude.{
  String, List, [], ◌∷◌, Option, none, some, ◌==◌, ◌≡◌, ◌≢◌, refl, sym, ◌∙◌, ap, inl, inr, arith,
  eq_iff, if◌then◌else◌, Bool-cases, filter, Dict, get, set, get-set_same, get-set_other,
  get-delete_same, get-delete_other,
}
use kubeguard.Dashboard.{TenantState, FindingLifecycle, MemStore, or_new, or_empty, is_some}
use kubeguard.Dashboard.Store.{
  register_in, register_cluster, delete_in, delete_cluster, drop_rows, drop_lifecycle, record_at,
  record_scan, provision_tenant, delete_tenant, seed_rows, seed_findings, upsert_lifecycle,
}
use kubeguard.Dashboard.Run.{Op, tenant_of, apply, replay}

-- What the store has for a tenant.
abbrev pub View : Type 0
View = Option TenantState × Option (Dict FindingLifecycle)

abbrev pub view : String → MemStore → View
view t m = (get t m.tenants, get t m.lifecycle)

module _ (digest : List String → String) where
  -- A call on what its tenant sees.
  local : Op → View → View
  local (Op.op_register t c) v = (some (register_in c (or_new v.0)), v.1)
  local (Op.op_delete t id) v =
      if is_some v.0
      then (if is_some (get id (or_new v.0).clusters)
          then (
            some (delete_in id (or_new v.0)),
            (if is_some v.1 then some (drop_rows id (or_empty v.1)) else v.1),
          )
          else v)
      else v
  local (Op.op_record t id scan_id rep at) v =
      (some (record_at id scan_id rep at (or_new v.0)), v.1)
  local (Op.op_provision t display_name) v = (
    some (
        if display_name == ""
        then or_new v.0
        else record (or_new v.0) { display_name = display_name }),
    v.1,
  )
  local (Op.op_erase t) v = (none, none)
  local (Op.op_seed t id fs now) v = (v.0, some (seed_rows digest id now fs (or_empty v.1)))
  local (Op.op_upsert t lc) v = (v.0, some (set lc.key lc (or_empty v.1)))

  delete-local :
      (t id : String) (m : MemStore)
      → view t (delete_cluster t id m).1 ≡ local (Op.op_delete t id) (view t m)
  unfolding local delete_cluster drop_lifecycle
  delete-local t id m = elim (Bool-cases (is_some (get t m.tenants))) [
    | inl y ↦ elim (Bool-cases (is_some (get id (or_new (get t m.tenants)).clusters))) [
      | inl z ↦ elim (Bool-cases (is_some (get t m.lifecycle))) [
        | inl l ↦
            rw (y, z, l)
              (ap₂ (λ a b. (a, b)) (get-set_same t _ m.tenants) (get-set_same t _ m.lifecycle))
        | inr l ↦ rw (y, z, l) (ap (λ a. (a, get t m.lifecycle)) (get-set_same t _ m.tenants))
      ]
      | inr n ↦ rw (y, n) refl
    ]
    | inr n ↦ rw n refl
  ]

  apply-own :
      (o : Op) (m : MemStore)
      → view (tenant_of o) (apply digest o m) ≡ local o (view (tenant_of o) m)
  unfolding apply tenant_of local register_cluster record_scan provision_tenant delete_tenant
      seed_findings upsert_lifecycle
  apply-own (Op.op_register t c) m = ap (λ a. (a, get t m.lifecycle)) (get-set_same t _ m.tenants)
  apply-own (Op.op_delete t id) m = delete-local t id m
  apply-own (Op.op_record t id scan_id rep at) m =
      ap (λ a. (a, get t m.lifecycle)) (get-set_same t _ m.tenants)
  apply-own (Op.op_provision t display_name) m =
      ap (λ a. (a, get t m.lifecycle)) (get-set_same t _ m.tenants)
  apply-own (Op.op_erase t) m =
      ap₂ (λ a b. (a, b)) (get-delete_same t m.tenants) (get-delete_same t m.lifecycle)
  apply-own (Op.op_seed t id fs now) m =
      ap (λ b. (get t m.tenants, b)) (get-set_same t _ m.lifecycle)
  apply-own (Op.op_upsert t lc) m = ap (λ b. (get t m.tenants, b)) (get-set_same t _ m.lifecycle)

  delete-other :
      (t' t id : String) (m : MemStore) → t ≢ t' → view t' (delete_cluster t id m).1 ≡ view t' m
  unfolding delete_cluster drop_lifecycle
  delete-other t' t id m n = elim (Bool-cases (is_some (get t m.tenants))) [
    | inl y ↦ elim (Bool-cases (is_some (get id (or_new (get t m.tenants)).clusters))) [
      | inl z ↦ elim (Bool-cases (is_some (get t m.lifecycle))) [
        | inl l ↦
            rw (y, z, l)
              (ap₂ (λ a b. (a, b)) (get-set_other t' t _ m.tenants n)
                (get-set_other t' t _ m.lifecycle n))
        | inr l ↦
            rw (y, z, l) (ap (λ a. (a, get t' m.lifecycle)) (get-set_other t' t _ m.tenants n))
      ]
      | inr k ↦ rw (y, k) refl
    ]
    | inr k ↦ rw k refl
  ]

  pub apply-other :
      (t' : String) (o : Op) (m : MemStore)
      → tenant_of o ≢ t'
      → view t' (apply digest o m) ≡ view t' m
  unfolding apply tenant_of register_cluster record_scan provision_tenant delete_tenant
      seed_findings upsert_lifecycle
  apply-other t' (Op.op_register t c) m n =
      ap (λ a. (a, get t' m.lifecycle)) (get-set_other t' t _ m.tenants n)
  apply-other t' (Op.op_delete t id) m n = delete-other t' t id m n
  apply-other t' (Op.op_record t id scan_id rep at) m n =
      ap (λ a. (a, get t' m.lifecycle)) (get-set_other t' t _ m.tenants n)
  apply-other t' (Op.op_provision t display_name) m n =
      ap (λ a. (a, get t' m.lifecycle)) (get-set_other t' t _ m.tenants n)
  apply-other t' (Op.op_erase t) m n =
      ap₂ (λ a b. (a, b)) (get-delete_other t' t m.tenants n) (get-delete_other t' t m.lifecycle n)
  apply-other t' (Op.op_seed t id fs now) m n =
      ap (λ b. (get t' m.tenants, b)) (get-set_other t' t _ m.lifecycle n)
  apply-other t' (Op.op_upsert t lc) m n =
      ap (λ b. (get t' m.tenants, b)) (get-set_other t' t _ m.lifecycle n)

  pub replay-view :
      (t : String) (os : List Op) (m m' : MemStore)
      → view t m ≡ view t m'
      → view t (replay digest os m) ≡ view t (replay digest (filter (λ o. tenant_of o == t) os) m')
  unfolding replay filter
  replay-view t [] m m' e = e
  replay-view t (o ∷ os) m m' e = elim (Bool-cases (tenant_of o == t)) [
    | inl y ↦
        let own : tenant_of o ≡ t = (eq_iff _ t).0 y in
        rw y (
          replay-view t os _ _
            (rw (← own) (apply-own o m ∙ ap (local o) (rw own e) ∙ sym (apply-own o m'))))
    | inr n ↦
        rw n
          (replay-view t os _ m' (apply-other t o m (ground (arith, eq_iff (tenant_of o) t)) ∙ e))
  ]
