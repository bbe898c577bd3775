-- ===== src/Dashboard/Guarded.antt =====
-- The middleware of internal/dashboard/security.go leaves the state to the handler.
use kubeguard.Prelude.{String, ◌≡◌, ◌⊎◌, inl, inr, Bool-cases, Option-cases}
use kubeguard.Dashboard.Auth.{ApiState, Handler}
use kubeguard.Dashboard.Changes.{Ends, write_error-Ends}
use kubeguard.Dashboard.Security.{Front, exceeds, is_foreign, limit_body, csrf_origin, rate_limit}

module _ {B : Type 0} (f : Front) (next : Handler B) (a a' : ApiState) where
  pub limit_body-Ends : Ends (limit_body f next) a a' → (a'.store ≡ a.store) ⊎ Ends next a a'
  unfolding limit_body
  limit_body-Ends (r, h) = elim (Bool-cases (exceeds f.content_length f.max_body)) [
    | inl y ↦ inl (write_error-Ends 413 "request body too large" a a' (r, rw (y, limit_body) at h))
    | inr n ↦ inr (r, rw (n, limit_body) at h)
  ]

  pub csrf_origin-Ends : Ends (csrf_origin f next) a a' → (a'.store ≡ a.store) ⊎ Ends next a a'
  unfolding csrf_origin
  csrf_origin-Ends (r, h) = elim (Bool-cases (is_foreign f)) [
    | inl y ↦
        inl
          (write_error-Ends 403 "cross-origin request rejected" a a' (r, rw (y, csrf_origin) at h))
    | inr n ↦ inr (r, rw (n, csrf_origin) at h)
  ]

  pub rate_limit-Ends :
      (tenant : String)
      → Ends (rate_limit f tenant next) a a'
      → (a'.store ≡ a.store) ⊎ Ends next a a'
  unfolding rate_limit
  rate_limit-Ends tenant (r, h) = elim (Option-cases f.allow) [
    | inl e ↦ inr (r, rw (e, rate_limit) at h)
    | inr (allow, e) ↦ elim (Bool-cases (allow tenant)) [
      | inl y ↦ inr (r, rw (e, rate_limit, y) at h)
      | inr n ↦
          inl (write_error-Ends 429 "rate limit exceeded" a a' (r, rw (e, rate_limit, n) at h))
    ]
  ]
