-- ===== src/Dashboard/Tenancy.antt =====
-- Whose data a request of internal/dashboard/api.go can change.
use kubeguard.Prelude.{
  ◌≤◌, String, Bool, true, not, List, Option, none, some, ◌==◌, ◌≡◌, ◌≢◌, ◌||◌, refl, sym, ◌∙◌, ap,
  ◌⊎◌, inl, inr, Bool-cases, Option-cases, none-some, some_inj, if◌then◌else◌,
}
use kubeguard.Dashboard.{MemStore}
use kubeguard.Dashboard.Store.{delete_cluster}
use kubeguard.Dashboard.Run.{Op, tenant_of, apply}
use kubeguard.Dashboard.Isolation.{view, apply-other}
use kubeguard.Dashboard.Auth.{
  Principal, ApiState, Handler, role_rank, require_super_admin, log, write_error,
}
use kubeguard.Dashboard.Sources.{add_source}
use kubeguard.Dashboard.Clusters.{
  ClusterBody, valid_cluster_id, handle_register_cluster, handle_delete_cluster,
}
use kubeguard.Dashboard.Changes.{Ends, write_error-Ends}
use kubeguard.Dashboard.Router.{Env, forget}

-- The calls of the store that lead from one to the other, each with the property.
pub data Calls (digest : List String → String) (Q : Op → Type 0)
    : MemStore → MemStore → Type 0 where
  calls_none : (m : MemStore) → Calls digest Q m m
  calls_one :
      (o : Op) (m m' : MemStore) → Q o → Calls digest Q (apply digest o m) m' → Calls digest Q m m'

-- Calls for other tenants are not seen.
pub Calls-view :
    (digest : List String → String) (t : String) (m m' : MemStore)
    → Calls digest (λ o. tenant_of o ≢ t) m m'
    → view t m' ≡ view t m
Calls-view digest t m m' (Calls.calls_none _) = refl
Calls-view digest t m m' (Calls.calls_one o _ _ q c) =
    Calls-view digest t _ m' c ∙ apply-other digest t o m q

pub forget-Ends :
    {B : Type 0} (h : Handler B) (a a' : ApiState) → Ends (forget h) a a' → Ends h a a'
unfolding forget
forget-Ends h a a' (r, e) = elim (Option-cases (h a)) [
  | inl n ↦ absurd (none-some (rw (n, forget) at e))
  | inr ((x, b), y) ↦ (x, rw y (ap (λ z. some (x, z.1)) (some_inj (rw (y, forget) at e))))
]

unless-true : {A : Type 0} (b : Bool) (x y z : A) → b ≡ true → (if not b then x else y) ≡ z → y ≡ z
unless-true b x y z e h = rw e at h

pub require_super_admin-Ends :
    {B : Type 0} (now action : String) (p : Principal) (next : Principal → Handler B)
    (a a' : ApiState)
    → Ends (require_super_admin now action p next) a a'
    → (a'.store ≡ a.store) ⊎ ((p.super_admin ≡ true) × Ends (next p) a a')
unfolding require_super_admin log write_error
require_super_admin-Ends now action p next a a' (r, h) = elim (Bool-cases p.super_admin) [
  | inl y ↦ inr (y, (r, unless-true p.super_admin _ (next p a) (some (r, a')) y h))
  | inr n ↦ inl (sym (ap (λ x. x.1.store) (some_inj (rw n at h))))
]

-- What a principal may do with the store.
unfoldable pub Permitted : Env → Principal → Op → Type 0
Permitted e p (Op.op_register t c) = (t ≡ p.tenant) × (3 ≤ role_rank p.role)
Permitted e p (Op.op_delete t id) = (t ≡ p.tenant) × (3 ≤ role_rank p.role)
Permitted e p (Op.op_record t id scan_id rep at) = (t ≡ p.tenant) × (2 ≤ role_rank p.role)
Permitted e p (Op.op_seed t id fs now) = (t ≡ p.tenant) × (2 ≤ role_rank p.role)
Permitted e p (Op.op_upsert t lc) =
    (t ≡ p.tenant)
    × ((2 ≤ role_rank p.role) ⊎ (role_rank e.life.waiver_approver_role ≤ role_rank p.role))
Permitted e p (Op.op_provision t display_name) = p.super_admin ≡ true
Permitted e p (Op.op_erase t) = (3 ≤ role_rank p.role) × ((t ≡ p.tenant) ⊎ (p.super_admin ≡ true))

-- The store after a request that the principal was permitted.
abbrev pub Made : Env → Principal → ApiState → ApiState → Type 0
Made e p a a' = Calls e.digest (Permitted e p) a.store a'.store

pub none-Made : (e : Env) (p : Principal) (a a' : ApiState) → a'.store ≡ a.store → Made e p a a'
none-Made e p a a' h = rw h (Calls.calls_none a.store)

pub one-Made :
    (e : Env) (p : Principal) (o : Op) (a a' : ApiState)
    → a'.store ≡ apply e.digest o a.store
    → Permitted e p o
    → Made e p a a'
one-Made e p o a a' h q =
    rw h (Calls.calls_one o a.store _ q (Calls.calls_none (apply e.digest o a.store)))

pub register-Made :
    (e : Env) (p : Principal) (body : Option ClusterBody) (a a' : ApiState)
    → 3 ≤ role_rank p.role
    → Ends (handle_register_cluster e.trim e.exists e.registrar e.now p body) a a'
    → Made e p a a'
unfolding handle_register_cluster Permitted apply log
register-Made e p none a a' r (x, h) = elim (Bool-cases e.registrar) [
  | inl y ↦ none-Made e p a a' (write_error-Ends 400 "invalid JSON body" a a' (x, rw y at h))
  | inr n ↦
      none-Made e p a a'
        (write_error-Ends 501 "dynamic cluster registration is not enabled" a a' (x, rw n at h))
]
register-Made e p (some b) a a' r (x, h) = elim (Bool-cases e.registrar) [
  | inr n ↦
      none-Made e p a a'
        (write_error-Ends 501 "dynamic cluster registration is not enabled" a a' (x, rw n at h))
  | inl y ↦ elim (Bool-cases (b.id == "" || b.source == "")) [
    | inl m ↦
        none-Made e p a a'
          (write_error-Ends 400 "id and source are required" a a' (x, rw (y, m) at h))
    | inr m ↦ elim (Bool-cases (valid_cluster_id b.id)) [
      | inr v ↦
          none-Made e p a a' (write_error-Ends 400 "invalid cluster id" a a' (x, rw (y, m, v) at h))
      | inl v ↦ elim (Option-cases (add_source e.trim e.exists b.id b.source a.sources)) [
        | inl s ↦ none-Made e p a a' (
            write_error-Ends 400 "invalid source" a a'
              (x, rw (y, m, v, s, handle_register_cluster) at h))
        | inr (ss, s) ↦
            one-Made e p (Op.op_register p.tenant _) a a'
              (sym (ap (λ z. z.1.store) (some_inj (rw (y, m, v, s, handle_register_cluster) at h))))
              (refl, r)
      ]
    ]
  ]
]

pub delete-Made :
    (e : Env) (p : Principal) (id : String) (a a' : ApiState)
    → 3 ≤ role_rank p.role
    → Ends (handle_delete_cluster e.registrar e.now p id) a a'
    → Made e p a a'
unfolding handle_delete_cluster Permitted apply log write_error
delete-Made e p id a a' r (x, h) = elim (Bool-cases e.registrar) [
  | inr n ↦
      none-Made e p a a'
        (write_error-Ends 501 "dynamic cluster registration is not enabled" a a' (x, rw n at h))
  | inl y ↦ elim (Bool-cases (valid_cluster_id id)) [
    | inr v ↦
        none-Made e p a a' (write_error-Ends 400 "invalid cluster id" a a' (x, rw (y, v) at h))
    | inl v ↦
        one-Made e p (Op.op_delete p.tenant id) a a'
          (elim (Bool-cases (delete_cluster p.tenant id a.store).0) [
            | inl d ↦ sym (ap (λ z. z.1.store) (some_inj (rw (y, v, d) at h)))
            | inr d ↦ sym (ap (λ z. z.1.store) (some_inj (rw (y, v, d) at h)))
          ])
          (refl, r)
  ]
]
