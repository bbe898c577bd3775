-- ===== src/Dashboard/Routes.antt =====
-- `registerLifecycleRoutes` of internal/dashboard/lifecycle_api.go: each change of a row behind its role.
use kubeguard.Prelude.{ℕ, String, List, Option}
use kubeguard.Dashboard.{FindingLifecycle}
use kubeguard.Dashboard.Auth.{Role, Principal, Handler, require_role}
use kubeguard.Dashboard.Triage.{
  LifecycleConfig, Ticks, StateBody, WaiverBody, handle_set_state, handle_create_waiver,
  handle_delete_waiver,
}

-- The requests under `/v1/lifecycle/{key}`, with the key and the decoded body.
pub data LifecycleRequest : Type 0 where
  post_state : String → Option StateBody → LifecycleRequest
  post_waiver : String → Option WaiverBody → LifecycleRequest
  delete_waiver : String → LifecycleRequest

module _ (digest : List String → String) (parse_time : String → Option ℕ)
    (format_time : ℕ → String) where
  -- `t.seen` is the first result of `a.now()`, that of a denial included.
  unfoldable pub serve_lifecycle :
      LifecycleConfig → Ticks → Principal → LifecycleRequest → Handler FindingLifecycle
  unfolding require_role handle_set_state handle_create_waiver handle_delete_waiver
  serve_lifecycle cfg t p (LifecycleRequest.post_state key body) =
      require_role t.seen Role.role_analyst "finding.triage" p
        (λ p. handle_set_state digest t p key body)
  serve_lifecycle cfg t p (LifecycleRequest.post_waiver key body) =
      require_role t.seen cfg.waiver_approver_role "finding.waiver" p
        (λ p. handle_create_waiver digest parse_time format_time cfg t p key body)
  serve_lifecycle cfg t p (LifecycleRequest.delete_waiver key) =
      require_role t.seen cfg.waiver_approver_role "finding.waiver" p
        (λ p. handle_delete_waiver t p key)
