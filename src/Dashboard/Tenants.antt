-- ===== src/Dashboard/Tenants.antt =====
-- The handlers of internal/dashboard/tenants_api.go, for the store and the audit log in memory.
use kubeguard.Prelude.{String, not, ◌&&◌, ◌||◌, Option, none, some, ◌==◌, if◌then◌else◌}
use kubeguard.Dashboard.Store.{provision_tenant, delete_tenant}
use kubeguard.Dashboard.Audit.{purge_tenant}
use kubeguard.Dashboard.Auth.{
  allowed, Role, Principal, ApiState, Response, Handler, log, write_error, require_role,
  require_super_admin,
}
use kubeguard.Dashboard.Clusters.{valid_cluster_id}

pub record TenantBody : Type 0 where
  pub tenant : String
  pub display_name : String

unfoldable pub handle_provision_tenant : String → Principal → Option TenantBody → Handler TenantBody
unfolding valid_cluster_id provision_tenant log allowed write_error
handle_provision_tenant now p none a = write_error 400 "invalid JSON body" a
handle_provision_tenant now p (some b) a =
    if b.tenant == "" || not (valid_cluster_id b.tenant)
    then write_error 400 "valid tenant id is required" a
    else some (
      Response.done 201 b,
      log (allowed now p "tenant.provision" b.tenant)
          (record a { store = provision_tenant b.tenant b.display_name a.store }),
    )

-- The store returns no error, and the log is purged after the store.
unfoldable pub erase_tenant : String → ApiState → ApiState
unfolding delete_tenant purge_tenant
erase_tenant target a = record a {
  store = delete_tenant target a.store;
  audit = purge_tenant target a.audit;
}

unfoldable pub handle_delete_tenant : String → Principal → String → Handler (Unit {0})
unfolding valid_cluster_id erase_tenant log allowed write_error
handle_delete_tenant now p target a =
    if target == "" || not (valid_cluster_id target)
    then write_error 400 "invalid tenant id" a
    else if not (target == p.tenant) && not p.super_admin
    then write_error 403 "cross-tenant erasure requires super-admin"
        (log (record (allowed now p "tenant.delete" target) { result = "denied" }) a)
    else some
        (Response.done 204 tt, erase_tenant target (log (allowed now p "tenant.delete" target) a))

-- The routes of `registerTenantRoutes`.
unfoldable pub serve_provision : String → Principal → Option TenantBody → Handler TenantBody
unfolding require_super_admin handle_provision_tenant
serve_provision now p body =
    require_super_admin now "tenant.provision" p (λ p. handle_provision_tenant now p body)

unfoldable pub serve_erase : String → Principal → String → Handler (Unit {0})
unfolding require_role handle_delete_tenant
serve_erase now p target =
    require_role now Role.role_admin "tenant.delete" p (λ p. handle_delete_tenant now p target)
