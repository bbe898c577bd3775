-- ===== src/Dashboard/Run.antt =====
-- The changes of a `MemStore` of internal/dashboard/memstore.go, one after another, each under the
-- store's lock.
use kubeguard.Prelude.{String, List, [], ◌∷◌}
use kubeguard.Api.{Finding, Report}
use kubeguard.Dashboard.{Cluster, FindingLifecycle, MemStore}
use kubeguard.Dashboard.Store.{
  register_cluster, delete_cluster, record_scan, provision_tenant, delete_tenant, seed_findings,
  upsert_lifecycle,
}

-- A call of a method of `MemStore` that changes it, with its arguments.
pub data Op : Type 0 where
  op_register : String → Cluster → Op
  op_delete : String → String → Op
  op_record : String → String → String → Report → String → Op
  op_provision : String → String → Op
  op_erase : String → Op
  op_seed : String → String → List Finding → String → Op
  op_upsert : String → FindingLifecycle → Op

-- The tenant that the call is for.
unfoldable pub tenant_of : Op → String
tenant_of (Op.op_register t c) = t
tenant_of (Op.op_delete t id) = t
tenant_of (Op.op_record t id scan_id rep at) = t
tenant_of (Op.op_provision t display_name) = t
tenant_of (Op.op_erase t) = t
tenant_of (Op.op_seed t id fs now) = t
tenant_of (Op.op_upsert t lc) = t

module _ (digest : List String → String) where
  unfoldable pub apply : Op → MemStore → MemStore
  apply (Op.op_register t c) m = register_cluster t c m
  apply (Op.op_delete t id) m = (delete_cluster t id m).1
  apply (Op.op_record t id scan_id rep at) m = (record_scan t id scan_id rep at m).1
  apply (Op.op_provision t display_name) m = provision_tenant t display_name m
  apply (Op.op_erase t) m = delete_tenant t m
  apply (Op.op_seed t id fs now) m = seed_findings digest t id fs now m
  apply (Op.op_upsert t lc) m = upsert_lifecycle t lc m

  unfoldable pub replay : List Op → MemStore → MemStore
  unfolding apply
  replay [] m = m
  replay (o ∷ os) m = replay os (apply o m)
