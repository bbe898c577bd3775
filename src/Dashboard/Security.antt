-- ===== src/Dashboard/Security.antt =====
-- internal/dashboard/security.go: the middleware that refuses a request before its handler. `trim_slash`
-- is `strings.TrimRight(·, "/")`, and what a `rate.Limiter` answers is an argument.
use kubeguard.Prelude.{
  ℕ, ℤ, pos, negsuc, String, Bool, true, false, not, ◌&&◌, ◌||◌, List, Option, none, some, ◌==◌,
  ltb, if◌then◌else◌, any, map,
}
use kubeguard.Dashboard.Auth.{Handler, write_error}

-- What `SecurityConfig` sets, and of the request what the middleware reads; `allow` tells what the
-- limiter of a tenant answers, `none` where there is no limiter. A length that is not known is negative.
pub record Front : Type 0 where
  pub trim_slash : String → String
  pub max_body : ℕ
  pub allowed_origins : List String
  pub allow : Option (String → Bool)
  pub content_length : ℤ
  pub method : String
  pub origin : String

-- `r.ContentLength > maxBytes`
unfoldable pub exceeds : ℤ → ℕ → Bool
exceeds (pos n) max = ltb max n
exceeds (negsuc n) max = false

unfoldable pub is_unsafe : String → Bool
is_unsafe method = method == "POST" || method == "PUT" || method == "PATCH" || method == "DELETE"

-- The origin is one that the allowlist, where there is one, rejects.
unfoldable pub is_foreign : Front → Bool
unfolding is_unsafe any
is_foreign f =
    let allow = map f.trim_slash f.allowed_origins in
    let origin = f.trim_slash f.origin in
    any (λ o. true) allow
    && is_unsafe f.method
    && not (origin == "")
    && not (any (λ o. o == origin) allow)

module _ {B : Type 0} where
  unfoldable pub limit_body : Front → Handler B → Handler B
  unfolding exceeds write_error
  limit_body f next a =
      if exceeds f.content_length f.max_body
      then write_error 413 "request body too large" a
      else next a

  unfoldable pub csrf_origin : Front → Handler B → Handler B
  unfolding is_foreign write_error
  csrf_origin f next a =
      if is_foreign f then write_error 403 "cross-origin request rejected" a else next a

  unfoldable pub rate_limit : Front → String → Handler B → Handler B
  unfolding write_error
  rate_limit f tenant next a = elim f.allow [
    | none ↦ next a
    | some allow ↦ if not (allow tenant) then write_error 429 "rate limit exceeded" a else next a
  ]
