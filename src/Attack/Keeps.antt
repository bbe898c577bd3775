-- ===== src/Attack/Keeps.antt =====
-- internal/attack/engine.go: what every step of `buildForWorkload` keeps, the path has.
use kubeguard.Prelude.{
  none-some, some_inj, String, Bool, true, false, ◌||◌, List, [], some, ◌≡◌, refl, sym, ap, arith,
  ◌==◌, if◌then◌else◌, Bool-cases, Option-cases, ltb, inl, inr,
}
use kubeguard.Api.{Capability, Severity, rank, AttackPath}
use kubeguard.Model.{Workload}
use kubeguard.Graph.{Graph}
use kubeguard.Graph.Resolve.{has_default_deny}
use kubeguard.Graph.Rbac.{sa_is_cluster_admin, sa_can_read_secrets, sa_can_create_pods}
use kubeguard.Attack.Escape.{
  kg_privileged, kg_host_path, kg_cluster_admin, kg_secrets, kg_pod_create, kg_automount,
  kg_no_net_pol, kg_exposure, workload_escape, host_path_name, escape_enabler, exposing_service,
}
use kubeguard.Attack.Engine.{
  Walk, add, path_severity, enter, escape, escalate, harvest, spread, chain, finish,
  build_for_workload, automount_on,
}

-- What a hop to a capability by a check id may rest on, for each hop that the engine adds.
pub record Causes (J : Capability → String → Type 0) (g : Graph) (w : Workload) : Type 0 where
  pub exposed :
      (svc : String) → exposing_service g w ≡ some svc → J Capability.network_reachable kg_exposure
  pub breakout : workload_escape w ≡ true → J Capability.container_escape (escape_enabler w).0
  pub node :
      workload_escape w ≡ true
      → J Capability.node_access (if host_path_name w == "" then kg_privileged else kg_host_path)
  pub token : automount_on g w ≡ true → J Capability.service_account_token kg_automount
  pub admin :
      sa_is_cluster_admin g w.namespace w.service_account_name ≡ true
      → J Capability.cluster_admin kg_cluster_admin
  pub secrets :
      sa_is_cluster_admin g w.namespace w.service_account_name ≡ false
      → sa_can_read_secrets g w.namespace w.service_account_name ≡ true
      → J Capability.secret_read kg_secrets
  pub pods :
      sa_is_cluster_admin g w.namespace w.service_account_name ≡ false
      → sa_can_create_pods g w.namespace w.service_account_name ≡ true
      → J Capability.pod_create kg_pod_create
  pub lateral : has_default_deny g w.namespace ≡ false → J Capability.lateral_movement kg_no_net_pol

-- What `finish` takes over from the walk.
pub record Ends (p : AttackPath) (k : Walk) : Type 0 where
  pub same_hops : p.hops ≡ k.hops
  pub worst : p.severity ≡ path_severity k.hops k.cur
  pub is_high : ltb (rank p.severity) (rank Severity.high) ≡ false

if-keeps : (P : Walk → Type 0) (b : Bool) (x y : Walk) → P x → P y → P (if b then x else y)
if-keeps P true x y p q = p
if-keeps P false x y p q = q

module _ (quote : String → String) where
  pub finish-Ends :
      (w : Workload) (k : Walk) (p : AttackPath) → finish quote w k ≡ some p → Ends p k
  unfolding finish
  finish-Ends w k p h =
      elim (Bool-cases (ltb (rank (path_severity k.hops k.cur)) (rank Severity.high))) [
        | inl y ↦ absurd (ground arith)
        | inr n ↦
            let same = some_inj (rw n at h) in
            record {
              same_hops = ap (λ q. q.hops) (sym same);
              worst = ap (λ q. q.severity) (sym same);
              is_high = rw (← same) n;
            }
      ]

  module _ (J : Capability → String → Type 0) (P : Walk → Type 0)
      (step : (k : Walk) (to : Capability) (by : String) (tech : List String) (narr : String)
        → P k
        → J to by
        → P (add k to by tech narr))
      (g : Graph) (w : Workload) (causes : Causes J g w) where
    pub escape-keeps : (k : Walk) → P k → P (escape quote w k)
    unfolding escape
    escape-keeps k p = elim (Bool-cases (workload_escape w)) [
      | inl y ↦ rw y (step _ _ _ _ _ (step _ _ _ _ _ p (causes.breakout y)) (causes.node y))
      | inr n ↦ rw n p
    ]

    secrets-keeps :
        (secrets pods admin : Bool) (k : Walk)
        → admin ≡ sa_is_cluster_admin g w.namespace w.service_account_name
        → secrets ≡ sa_can_read_secrets g w.namespace w.service_account_name
        → pods ≡ sa_can_create_pods g w.namespace w.service_account_name
        → automount_on g w ≡ true
        → P k
        → P (escalate quote admin secrets pods w k)
    unfolding escalate
    secrets-keeps secrets pods true k a s c m p =
        step _ _ _ _ _ (step _ _ _ _ _ p (causes.token m)) (causes.admin (sym a))
    secrets-keeps false false false k a s c m p = step _ _ _ _ _ p (causes.token m)
    secrets-keeps true false false k a s c m p =
        step _ _ _ _ _ (step _ _ _ _ _ p (causes.token m)) (causes.secrets (sym a) (sym s))
    secrets-keeps false true false k a s c m p =
        step _ _ _ _ _ (step _ _ _ _ _ p (causes.token m)) (causes.pods (sym a) (sym c))
    secrets-keeps true true false k a s c m p =
        step _ _ _ _ _
          (step _ _ _ _ _ (step _ _ _ _ _ p (causes.token m)) (causes.secrets (sym a) (sym s)))
          (causes.pods (sym a) (sym c))

    pub harvest-keeps : (k : Walk) → P k → P (harvest quote g w k)
    unfolding harvest
    harvest-keeps k p = elim (Bool-cases (automount_on g w)) [
      | inr n ↦ rw n p
      | inl y ↦ rw y (if-keeps P _ _ k (secrets-keeps _ _ _ k refl refl refl y p) p)
    ]

    pub spread-keeps : (k : Walk) → P k → P (spread quote g w k)
    unfolding spread
    spread-keeps k p = elim (Bool-cases (has_default_deny g w.namespace)) [
      | inl y ↦ rw y p
      | inr n ↦ rw n (if-keeps P _ _ k (step _ _ _ _ _ p (causes.lateral n)) p)
    ]

    -- Each stage keeps what every added hop keeps.
    chain-keeps : (k : Walk) → P k → P (chain quote g w k)
    unfolding chain
    chain-keeps k p = spread-keeps _ (harvest-keeps _ (escape-keeps k p))

    enter-keeps :
        (b : Bool) (k : Walk)
        → P (record { hops = []; cur = Capability.internet_ingress })
        → P (record { hops = []; cur = Capability.network_reachable })
        → enter quote g w b ≡ some k
        → P k
    unfolding enter
    enter-keeps b k p q h = elim (Option-cases (exposing_service g w)) [
      | inr (svc, e) ↦
          rw (← some_inj (rw (e, enter) at h)) (step _ _ _ _ _ p (causes.exposed svc e))
      | inl e ↦ elim (Bool-cases (workload_escape w || b)) [
        | inl y ↦ rw (← some_inj (rw (e, y, enter) at h)) q
        | inr n ↦ absurd (none-some (rw (e, n, enter) at h))
      ]
    ]

    -- So the path that the function returns ends a walk with the property.
    pub build_for_workload-keeps :
        (b : Bool) (p : AttackPath)
        → P (record { hops = []; cur = Capability.internet_ingress })
        → P (record { hops = []; cur = Capability.network_reachable })
        → build_for_workload quote g w b ≡ some p
        → (k : Walk) × P k × Ends p k
    unfolding build_for_workload
    build_for_workload-keeps b p p1 p2 h = elim (Option-cases (enter quote g w b)) [
      | inl e ↦ absurd (none-some (rw (e, build_for_workload) at h))
      | inr (k, e) ↦ (
        chain quote g w k,
        chain-keeps k (enter-keeps b k p1 p2 e),
        finish-Ends w (chain quote g w k) p (rw (e, build_for_workload) at h),
      )
    ]
