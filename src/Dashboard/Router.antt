-- ===== src/Dashboard/Router.antt =====
-- The routes of internal/dashboard/api.go that change the state, behind the middleware that may refuse
-- them, authentication and their roles.
-- The other routes of `/v1` only read.
use kubeguard.Prelude.{ℕ, String, Bool, List, Option, none, some}
use kubeguard.Dashboard.Auth.{
  Authenticator, Role, Principal, Response, Handler, auth_middleware, require_role,
}
use kubeguard.Dashboard.Scans.{ScannerRun, Stamps}
use kubeguard.Dashboard.Clusters.{
  ClusterBody, handle_register_cluster, handle_delete_cluster, handle_trigger_scan,
}
use kubeguard.Dashboard.Security.{Front, limit_body, csrf_origin, rate_limit}
use kubeguard.Dashboard.Triage.{LifecycleConfig, Ticks}
use kubeguard.Dashboard.Routes.{LifecycleRequest, serve_lifecycle}
use kubeguard.Dashboard.Tenants.{TenantBody, serve_provision, serve_erase}

pub data Request : Type 0 where
  post_clusters : Option ClusterBody → Request
  delete_clusters : String → Request
  post_scans : Option String → Request
  lifecycle : LifecycleRequest → Request
  post_tenants : Option TenantBody → Request
  delete_tenants : String → Request

-- The configuration, the outside functions, and what the clock, the ids and the scanner give during the
-- request.
pub record Env : Type 0 where
  pub digest : List String → String
  pub parse_time : String → Option ℕ
  pub format_time : ℕ → String
  pub trim : String → String
  pub exists : String → Bool
  pub registrar : Bool
  pub queue_size : ℕ
  pub life : LifecycleConfig
  pub front : Front
  pub auth : Authenticator
  pub scanner : Option ScannerRun
  pub now : String
  pub ticks : Ticks
  pub stamps : Stamps
  pub scan_id : String

-- The response without its body.
unfoldable pub bare : {B : Type 0} → Response B → Response (Unit {0})
bare (Response.done code b) = Response.done code tt
bare (Response.failed code msg) = Response.failed code msg

unfoldable pub forget : {B : Type 0} → Handler B → Handler (Unit {0})
unfolding bare
forget h a = elim (h a) [ none ↦ none | some (r, a') ↦ some (bare r, a') ]

unfoldable pub route : Env → Request → Principal → Handler (Unit {0})
unfolding forget require_role handle_register_cluster handle_delete_cluster handle_trigger_scan
    serve_lifecycle serve_provision serve_erase
route e (Request.post_clusters body) p = forget (
    require_role e.now Role.role_admin "cluster.write" p
      (λ p. handle_register_cluster e.trim e.exists e.registrar e.now p body))
route e (Request.delete_clusters id) p = forget (
    require_role e.now Role.role_admin "cluster.write" p
      (λ p. handle_delete_cluster e.registrar e.now p id))
route e (Request.post_scans body) p = forget (
    require_role e.now Role.role_analyst "scan.trigger" p
      (λ p. handle_trigger_scan e.digest e.queue_size e.scanner e.stamps p body e.scan_id))
route e (Request.lifecycle req) p =
    forget (serve_lifecycle e.digest e.parse_time e.format_time e.life e.ticks p req)
route e (Request.post_tenants body) p = forget (serve_provision e.now p body)
route e (Request.delete_tenants target) p = forget (serve_erase e.now p target)

unfoldable pub serve : Env → String → Request → Handler (Unit {0})
unfolding limit_body csrf_origin rate_limit auth_middleware route
serve e tok req = limit_body e.front (
    auth_middleware e.auth tok
      (λ p. csrf_origin e.front (rate_limit e.front p.tenant (route e req p))))
