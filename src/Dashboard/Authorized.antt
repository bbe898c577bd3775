-- ===== src/Dashboard/Authorized.antt =====
-- Requests of internal/dashboard/api.go, from the token to the store.
use kubeguard.Prelude.{
  ◌≤◌, String, false, some, ◌≡◌, ◌≢◌, refl, sym, ◌∙◌, ◌⊎◌, inl, inr, Option-cases, false-true,
}
use kubeguard.Dashboard.{MemStore}
use kubeguard.Dashboard.Run.{Op, tenant_of, apply}
use kubeguard.Dashboard.Isolated.{SameReads, view-SameReads}
use kubeguard.Dashboard.Invariant.{IsStore}
use kubeguard.Dashboard.Auth.{
  Handler, require_role, Role, Principal, ApiState, role_rank, auth_middleware,
}
use kubeguard.Dashboard.Clusters.{
  handle_register_cluster, handle_delete_cluster, handle_trigger_scan,
}
use kubeguard.Dashboard.Triage.{handle_set_state, handle_create_waiver, handle_delete_waiver}
use kubeguard.Dashboard.Routes.{LifecycleRequest, serve_lifecycle}
use kubeguard.Dashboard.Tenants.{
  handle_provision_tenant, handle_delete_tenant, serve_provision, serve_erase,
}
use kubeguard.Dashboard.Changes.{
  Ends, write_error-Ends, require_role-Ends, handle_set_state-Ends, handle_create_waiver-Ends,
  handle_delete_waiver-Ends,
}
use kubeguard.Dashboard.Security.{csrf_origin, rate_limit}
use kubeguard.Dashboard.Guarded.{limit_body-Ends, csrf_origin-Ends, rate_limit-Ends}
use kubeguard.Dashboard.Router.{Request, Env, forget, route, serve}
use kubeguard.Dashboard.Tenancy.{
  Calls, Calls-view, forget-Ends, require_super_admin-Ends, Permitted, Made, none-Made, one-Made,
  register-Made, delete-Made,
}
use kubeguard.Dashboard.Permits.{trigger-Made, provision-Made, erase-Made}

module _ (e : Env) (p : Principal) (a a' : ApiState) where
  lifecycle-Made :
      (req : LifecycleRequest)
      → IsStore a.store
      → Ends (serve_lifecycle e.digest e.parse_time e.format_time e.life e.ticks p req) a a'
      → Made e p a a'
  unfolding serve_lifecycle Permitted apply role_rank
  lifecycle-Made (LifecycleRequest.post_state key body) w h =
      elim (require_role-Ends e.ticks.seen Role.role_analyst "finding.triage" p
        (λ p. handle_set_state e.digest e.ticks p key body) a a' h) [
          | inl same ↦ none-Made e p a a' same
          | inr (q, h') ↦ elim (handle_set_state-Ends e.digest e.ticks p key body a a' w h') [
            | inl same ↦ none-Made e p a a' same
            | inr (b, _, (lc, _, s)) ↦ one-Made e p (Op.op_upsert p.tenant _) a a' s (refl, inl q)
          ]
        ]
  lifecycle-Made (LifecycleRequest.post_waiver key body) w h =
      elim (require_role-Ends e.ticks.seen e.life.waiver_approver_role "finding.waiver" p
        (λ p. handle_create_waiver e.digest e.parse_time e.format_time e.life e.ticks p key body) a
        a' h) [
          | inl same ↦ none-Made e p a a' same
          | inr (q, h') ↦
              elim (handle_create_waiver-Ends e.digest e.parse_time e.format_time e.life e.ticks p
                key body a a' w h') [
                  | inl same ↦ none-Made e p a a' same
                  | inr (b, exp, _, _, (lc, _, s)) ↦
                      one-Made e p (Op.op_upsert p.tenant _) a a' s (refl, inr q)
                ]
        ]
  lifecycle-Made (LifecycleRequest.delete_waiver key) w h =
      elim (require_role-Ends e.ticks.seen e.life.waiver_approver_role "finding.waiver" p
        (λ p. handle_delete_waiver e.ticks p key) a a' h) [
          | inl same ↦ none-Made e p a a' same
          | inr (q, h') ↦ elim (handle_delete_waiver-Ends e.ticks p key a a' h') [
            | inl same ↦ none-Made e p a a' same
            | inr (lc, _, _, s) ↦ one-Made e p (Op.op_upsert p.tenant _) a a' s (refl, inr q)
          ]
        ]

  -- A handler behind a role.
  gated-Made :
      {B : Type 0} (min_role : Role) (action : String) (next : Principal → Handler B)
      → (role_rank min_role ≤ role_rank p.role → Ends (next p) a a' → Made e p a a')
      → Ends (forget (require_role e.now min_role action p next)) a a'
      → Made e p a a'
  gated-Made min_role action next f h =
      let gate = require_role e.now min_role action p next in
      elim (require_role-Ends e.now min_role action p next a a' (forget-Ends gate a a' h)) [
        | inl same ↦ none-Made e p a a' same
        | inr (q, h') ↦ f q h'
      ]

  route-Made : (req : Request) → IsStore a.store → Ends (route e req p) a a' → Made e p a a'
  unfolding route serve_provision serve_erase role_rank
  route-Made (Request.post_clusters body) w h =
      gated-Made Role.role_admin "cluster.write"
        (λ p. handle_register_cluster e.trim e.exists e.registrar e.now p body)
        (register-Made e p body a a') h
  route-Made (Request.delete_clusters id) w h =
      gated-Made Role.role_admin "cluster.write" (λ p. handle_delete_cluster e.registrar e.now p id)
        (delete-Made e p id a a') h
  route-Made (Request.post_scans body) w h =
      gated-Made Role.role_analyst "scan.trigger"
        (λ p. handle_trigger_scan e.digest e.queue_size e.scanner e.stamps p body e.scan_id)
        (trigger-Made e p body a a') h
  route-Made (Request.lifecycle req) w h = lifecycle-Made req w (
      forget-Ends (serve_lifecycle e.digest e.parse_time e.format_time e.life e.ticks p req) a a' h)
  route-Made (Request.post_tenants body) w h =
      elim (require_super_admin-Ends e.now "tenant.provision" p
        (λ p. handle_provision_tenant e.now p body) a a'
        (forget-Ends (serve_provision e.now p body) a a' h)) [
          | inl same ↦ none-Made e p a a' same
          | inr (q, h') ↦ provision-Made e p body a a' q h'
        ]
  route-Made (Request.delete_tenants target) w h =
      gated-Made Role.role_admin "tenant.delete" (λ p. handle_delete_tenant e.now p target)
        (erase-Made e p target a a') h

Calls-imp :
    (digest : _) {Q R : Op → Type 0}
    → ((o : Op) → Q o → R o)
    → (m m' : MemStore) → Calls digest Q m m'
    → Calls digest R m m'
Calls-imp digest f m m' (Calls.calls_none _) = Calls.calls_none m
Calls-imp digest f m m' (Calls.calls_one o _ _ q c) =
    Calls.calls_one o m m' (f o q) (Calls-imp digest f _ m' c)

Permitted-other :
    (e : Env) (p : Principal) (t : String) (o : Op)
    → p.tenant ≢ t
    → p.super_admin ≡ false
    → Permitted e p o
    → tenant_of o ≢ t
unfolding Permitted tenant_of
Permitted-other e p t (Op.op_register _ c) n s q = λ x. n (sym q.0 ∙ x)
Permitted-other e p t (Op.op_delete _ id) n s q = λ x. n (sym q.0 ∙ x)
Permitted-other e p t (Op.op_record _ id scan_id rep at) n s q = λ x. n (sym q.0 ∙ x)
Permitted-other e p t (Op.op_seed _ id fs now) n s q = λ x. n (sym q.0 ∙ x)
Permitted-other e p t (Op.op_upsert _ lc) n s q = λ x. n (sym q.0 ∙ x)
Permitted-other e p t (Op.op_provision _ display_name) n s q = absurd (false-true (sym s ∙ q))
Permitted-other e p t (Op.op_erase _) n s (_, inl own) = λ x. n (sym own ∙ x)
Permitted-other e p t (Op.op_erase _) n s (_, inr y) = absurd (false-true (sym s ∙ y))

module _ (e : Env) (tok : String) (req : Request) (a a' : ApiState) where
  pub serve-Permitted :
      IsStore a.store
      → Ends (serve e tok req) a a'
      → (a'.store ≡ a.store) ⊎ ((p : Principal) × (e.auth tok ≡ some p) × Made e p a a')
  unfolding serve auth_middleware
  serve-Permitted w h =
      let guarded =
        auth_middleware e.auth tok
          (λ p. csrf_origin e.front (rate_limit e.front p.tenant (route e req p))) in
      elim (limit_body-Ends e.front guarded a a' h) [
        | inl same ↦ inl same
        | inr (x, h') ↦ elim (Option-cases (e.auth tok)) [
          | inl n ↦
              inl (write_error-Ends 401 "unauthenticated" a a' (x, rw (n, auth_middleware) at h'))
          | inr (p, y) ↦
              let inner = rate_limit e.front p.tenant (route e req p) in
              elim (csrf_origin-Ends e.front inner a a' (x, rw (y, auth_middleware) at h')) [
                | inl same ↦ inl same
                | inr h'' ↦ elim (rate_limit-Ends e.front (route e req p) a a' p.tenant h'') [
                  | inl same ↦ inl same
                  | inr r ↦ inr (p, y, route-Made e p a a' req w r)
                ]
              ]
        ]
      ]

  -- Whatever a request does, every read for a tenant has the same result as before, unless the token
  -- authenticates a principal of that tenant or a super-admin.
  pub serve-isolated :
      (t : String)
      → IsStore a.store
      → Ends (serve e tok req) a a'
      → ((p : Principal) → e.auth tok ≡ some p → (p.tenant ≢ t) × (p.super_admin ≡ false))
      → SameReads t a'.store a.store
  serve-isolated t w h n = elim (serve-Permitted w h) [
    | inl same ↦ rw same (view-SameReads t a.store a.store refl)
    | inr (p, y, c) ↦ view-SameReads t a'.store a.store (
        Calls-view e.digest t a.store a'.store (
          Calls-imp e.digest (λ o. Permitted-other e p t o (n p y).0 (n p y).1) a.store a'.store c))
  ]
