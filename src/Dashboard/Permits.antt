-- ===== src/Dashboard/Permits.antt =====
-- What the routes of internal/dashboard/api.go permit to a principal, and so to a tenant.
use kubeguard.Prelude.{
  ◌≤◌, String, true, false, not, ◌&&◌, ◌||◌, Option, none, some, ◌==◌, ◌≡◌, refl, sym, ap, ◌⊎◌, inl,
  inr, arith, eq_iff, Bool-cases, Option-cases, some_inj,
}
use kubeguard.Dashboard.{is_some}
use kubeguard.Dashboard.Reads.{get_cluster}
use kubeguard.Dashboard.Run.{Op, apply}
use kubeguard.Dashboard.Auth.{Principal, ApiState, role_rank, log, write_error}
use kubeguard.Dashboard.Broker.{enqueue}
use kubeguard.Dashboard.Scans.{
  ScannerRun, run_scanner, run_scan_with_id, scan_failed, scan_succeeded, persist, tell, announce,
}
use kubeguard.Dashboard.Clusters.{valid_cluster_id, start_scan, handle_trigger_scan}
use kubeguard.Dashboard.Tenants.{
  TenantBody, handle_provision_tenant, handle_delete_tenant, erase_tenant,
}
use kubeguard.Dashboard.Changes.{Ends, write_error-Ends}
use kubeguard.Dashboard.ScanRuns.{ScanResult-cases}
use kubeguard.Dashboard.Router.{Env}
use kubeguard.Dashboard.Tenancy.{Calls, Permitted, Made, none-Made, one-Made}

module _ (e : Env) (p : Principal) where
  own_or_super :
      (target : String)
      → (not (target == p.tenant) && not p.super_admin) ≡ false
      → (target ≡ p.tenant) ⊎ (p.super_admin ≡ true)
  own_or_super target h = elim (Bool-cases (target == p.tenant)) [
    | inl y ↦ inl ((eq_iff target p.tenant).0 y)
    | inr n ↦ inr (ground arith)
  ]

  scan-Made :
      (r : ScannerRun) (id : String) (a : ApiState)
      → 2 ≤ role_rank p.role
      → Made e p a (run_scan_with_id e.digest r e.stamps p.tenant id p.subject e.scan_id a).1
  unfolding run_scan_with_id scan_failed scan_succeeded persist tell announce log apply Permitted
  scan-Made r id a q = elim (ScanResult-cases (run_scanner r)) [
    | inl (rep, s) ↦
        rw (s, run_scan_with_id)
          (Calls.calls_one (Op.op_record p.tenant id e.scan_id rep e.stamps.recorded) _ _ (refl, q)
            (Calls.calls_one (Op.op_seed p.tenant id rep.findings e.stamps.seeded) _ _ (refl, q)
              (Calls.calls_none _)))
    | inr (x, s) ↦ rw (s, run_scan_with_id) (Calls.calls_none a.store)
  ]

  start_scan-Made :
      (r : ScannerRun) (id : String) (a a' : ApiState)
      → 2 ≤ role_rank p.role
      → Ends (start_scan e.digest e.queue_size r e.stamps p id e.scan_id) a a'
      → Made e p a a'
  unfolding start_scan write_error
  start_scan-Made r id a a' q (x, h) = elim (Option-cases a.pool) [
    | inl n ↦
        let same : (run_scan_with_id e.digest r e.stamps p.tenant id p.subject e.scan_id a).1 ≡ a' =
          ap (λ z. z.1) (some_inj (rw (n, start_scan) at h)) in
        rw (← same) (scan-Made r id a q)
    | inr (jobs, y) ↦
        elim (Option-cases (
          enqueue e.queue_size
            (record {
              tenant = p.tenant;
              cluster_id = id;
              subject = p.subject;
              scan_id = e.scan_id;
            })
            jobs)) [
              | inl f ↦
                  none-Made e p a a'
                    (sym (ap (λ z. z.1.store) (some_inj (rw (y, start_scan, f) at h))))
              | inr (js, f) ↦
                  none-Made e p a a'
                    (sym (ap (λ z. z.1.store) (some_inj (rw (y, start_scan, f) at h))))
            ]
  ]

  pub trigger-Made :
      (body : Option String) (a a' : ApiState)
      → 2 ≤ role_rank p.role
      → Ends (handle_trigger_scan e.digest e.queue_size e.scanner e.stamps p body e.scan_id) a a'
      → Made e p a a'
  unfolding handle_trigger_scan
  trigger-Made none a a' q h =
      none-Made e p a a' (write_error-Ends 400 "clusterId is required" a a' h)
  trigger-Made (some id) a a' q (x, h) = elim (Bool-cases (id == "")) [
    | inl y ↦ none-Made e p a a' (write_error-Ends 400 "clusterId is required" a a' (x, rw y at h))
    | inr m ↦ elim (Bool-cases (valid_cluster_id id)) [
      | inr v ↦
          none-Made e p a a' (write_error-Ends 400 "invalid clusterId" a a' (x, rw (v, m) at h))
      | inl v ↦ elim (Bool-cases (is_some (get_cluster p.tenant id a.store))) [
        | inr g ↦
            none-Made e p a a' (write_error-Ends 404 "unknown cluster" a a' (x, rw (v, m, g) at h))
        | inl g ↦ elim (Option-cases e.scanner) [
          | inl s ↦ none-Made e p a a' (
              write_error-Ends 503 "no scanner configured" a a'
                (x, rw (v, m, g, s, handle_trigger_scan) at h))
          | inr (r, s) ↦ start_scan-Made r id a a' q (x, rw (v, m, g, s, handle_trigger_scan) at h)
        ]
      ]
    ]
  ]

  pub provision-Made :
      (body : Option TenantBody) (a a' : ApiState)
      → p.super_admin ≡ true
      → Ends (handle_provision_tenant e.now p body) a a'
      → Made e p a a'
  unfolding handle_provision_tenant Permitted apply log
  provision-Made none a a' q h =
      none-Made e p a a' (write_error-Ends 400 "invalid JSON body" a a' h)
  provision-Made (some b) a a' q (x, h) =
      elim (Bool-cases (b.tenant == "" || not (valid_cluster_id b.tenant))) [
        | inl y ↦
            none-Made e p a a'
              (write_error-Ends 400 "valid tenant id is required" a a' (x, rw y at h))
        | inr n ↦
            one-Made e p (Op.op_provision b.tenant b.display_name) a a'
              (sym (ap (λ z. z.1.store) (some_inj (rw n at h)))) q
      ]

  pub erase-Made :
      (target : String) (a a' : ApiState)
      → 3 ≤ role_rank p.role
      → Ends (handle_delete_tenant e.now p target) a a'
      → Made e p a a'
  unfolding handle_delete_tenant Permitted apply log erase_tenant write_error
  erase-Made target a a' q (x, h) =
      elim (Bool-cases (target == "" || not (valid_cluster_id target))) [
        | inl y ↦ none-Made e p a a' (write_error-Ends 400 "invalid tenant id" a a' (x, rw y at h))
        | inr n ↦ elim (Bool-cases (not (target == p.tenant) && not p.super_admin)) [
          | inl y ↦ none-Made e p a a' (sym (ap (λ z. z.1.store) (some_inj (rw (n, y) at h))))
          | inr o ↦
              one-Made e p (Op.op_erase target) a a'
                (sym (ap (λ z. z.1.store) (some_inj (rw (n, o) at h)))) (q, own_or_super target o)
        ]
      ]
