-- ===== src/Dashboard/Auth.antt =====
-- internal/dashboard/auth.go and jwt.go: who calls, and which calls reach a handler. A response is a
-- status with the body of success or the error's text.
use kubeguard.Prelude.{
  ℕ, String, Bool, not, ◌∷◌, [], List, Option, none, some, ◌==◌, ltb, if◌then◌else◌, Dict, get,
}
use kubeguard.Dashboard.{MemStore}
use kubeguard.Dashboard.Broker.{Broker, ScanJob}
use kubeguard.Dashboard.Sources.{SourceRegistry}
use kubeguard.Dashboard.Audit.{AuditEntry, MemAuditLog, write}

-- `role_other s` is a string that is none of the three names.
pub data Role : Type 0 where
  role_viewer role_analyst role_admin : Role
  role_other : String → Role

unfoldable pub role_rank : Role → ℕ
role_rank Role.role_admin = 3
role_rank Role.role_analyst = 2
role_rank Role.role_viewer = 1
role_rank (Role.role_other s) = 0

pub record Principal : Type 0 where
  pub subject : String
  pub tenant : String
  pub role : Role
  pub super_admin : Bool

-- An authenticator, of the bearer token (`""` where there is none).
abbrev pub Authenticator : Type 0
Authenticator = String → Option Principal

-- `Authenticate` of `StaticAuth`.
unfoldable pub static_authenticate : Dict Principal → Authenticator
static_authenticate tokens tok = if tok == "" then none else get tok tokens

-- `Authenticate` of `ChainAuth`.
unfoldable pub chain_authenticate : List Authenticator → Authenticator
chain_authenticate [] tok = none
chain_authenticate (a ∷ more) tok = elim (a tok) [
  | none ↦ chain_authenticate more tok
  | some p ↦ some p
]

-- The claims that the program reads, `""` where one is absent or no string.
pub record Claims : Type 0 where
  pub tenant : String
  pub sub : String
  pub role : String

unfoldable pub parse_role : String → Role
parse_role s =
    if s == "admin"
    then Role.role_admin
    else if s == "analyst"
    then Role.role_analyst
    else Role.role_viewer

-- `Authenticate` of `JWTAuth`; `verify` is `jwt.ParseWithClaims` with the configured key and options,
-- and gives no claims where it fails.
unfoldable pub jwt_authenticate : (String → Option Claims) → Authenticator
unfolding parse_role
jwt_authenticate verify raw = if raw == "" then none else elim (verify raw) [
  | none ↦ none
  | some c ↦
      if c.tenant == ""
      then none
      else some (record {
        subject = c.sub;
        tenant = c.tenant;
        role = if c.role == "super-admin" then Role.role_admin else parse_role c.role;
        super_admin = c.role == "super-admin";
      })
]

-- The fields of `API` that a handler changes.
pub record ApiState : Type 0 where
  pub store : MemStore
  pub audit : MemAuditLog
  pub broker : Broker
  pub sources : SourceRegistry
  -- nil, where scans run inside the request
  pub pool : Option (List ScanJob)

pub data Response (B : Type 0) : Type 0 where
  done : ℕ → B → Response B
  failed : ℕ → String → Response B

-- A handler returns a response and the state after it; `none` is a panic.
abbrev pub Handler : Type 0 → Type 0
Handler B = ApiState → Option (Response B × ApiState)

unfoldable pub log : AuditEntry → ApiState → ApiState
unfolding write
log e a = record a { audit = write e a.audit }

-- The entry of an action that is done.
unfoldable pub allowed : String → Principal → String → String → AuditEntry
allowed now p action resource = record {
  at = now;
  subject = p.subject;
  tenant = p.tenant;
  action = action;
  resource = resource;
  result = "allowed";
}

-- The entry of an attempt that is denied.
unfoldable pub denial : String → String → Principal → AuditEntry
denial now action p = record {
  at = now;
  subject = p.subject;
  tenant = p.tenant;
  action = action;
  resource = "";
  result = "denied";
}

module _ {B : Type 0} where
  -- `writeError(w, code, msg); return`
  unfoldable pub write_error : ℕ → String → Handler B
  write_error code msg a = some (Response.failed code msg, a)

  unfoldable pub auth_middleware : Authenticator → String → (Principal → Handler B) → Handler B
  unfolding write_error
  auth_middleware auth tok next a = elim (auth tok) [
    | none ↦ write_error 401 "unauthenticated" a
    | some p ↦ next p a
  ]

  unfoldable pub require_super_admin :
      String → String → Principal → (Principal → Handler B) → Handler B
  unfolding log denial write_error
  require_super_admin now action p next a =
      if not p.super_admin
      then write_error 403 "super-admin required" (log (denial now action p) a)
      else next p a

  unfoldable pub require_role :
      String → Role → String → Principal → (Principal → Handler B) → Handler B
  unfolding role_rank log denial write_error
  require_role now min_role action p next a =
      if ltb (role_rank p.role) (role_rank min_role)
      then write_error 403 "insufficient role" (log (denial now action p) a)
      else next p a
