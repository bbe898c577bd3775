-- ===== src/Attack/Detected.antt =====
-- internal/attack/engine.go: the paths that the engine does not miss.
use kubeguard.Prelude.{
  String, Bool, true, ◌||◌, List, [], ◌∷◌, some, ◌≡◌, refl, sym, ◌∙◌, ◌⊎◌, inl, inr, arith, cat,
  ltb, none-some, Bool-cases, Option-cases, Any, Any-append_left, Any-append_right, ◌≤◌,
}
use mathlib.Core.Path.{subst}
use kubeguard.Api.{Capability, Severity, rank, PathHop, AttackPath}
use kubeguard.Model.{Workload}
use kubeguard.Graph.{Graph}
use kubeguard.Graph.Rbac.{sa_is_cluster_admin}
use kubeguard.Attack.Escape.{
  kg_exposure, workload_escape, exposing_service, foothold_in_cluster, cap_severity,
}
use kubeguard.Attack.Engine.{
  Walk, add, automount_on, consider, consider_hops, path_severity, enter, escape, escalate, harvest,
  chain, finish, build_for_workload,
}
use kubeguard.Attack.Keeps.{finish-Ends, harvest-keeps, spread-keeps}
use kubeguard.Attack.Linked.{any_cause}

-- Some hop leads to the capability.
abbrev pub Reaches : Capability → List PathHop → Type 0
Reaches c = Any (λ h. h.to ≡ c)

add-Reaches :
    (k : Walk) (to : Capability) (by : String) (tech : List String) (narr : String)
    → Reaches to (add k to by tech narr).hops
unfolding add
add-Reaches k to by tech narr = Any-append_right (λ h. h.to ≡ to) k.hops _ (inl refl)

add-keeps :
    (c : Capability) (k : Walk) (to : Capability) (by : String) (tech : List String) (narr : String)
    → Reaches c k.hops
    → Unit {0}
    → Reaches c (add k to by tech narr).hops
unfolding add
add-keeps c k to by tech narr r u = Any-append_left (λ h. h.to ≡ c) k.hops _ r

-- The worst severity bounds the severity of every capability of the path.
consider-le :
    (s : Severity) (c : Capability)
    → (rank s ≤ rank (consider s c)) × (rank (cap_severity c) ≤ rank (consider s c))
unfolding consider
consider-le s c = elim (Bool-cases (ltb (rank s) (rank (cap_severity c)))) [
  | inl y ↦ rw y (ground arith, ground arith)
  | inr n ↦ rw n (ground arith, ground arith)
]

consider_hops-le : (s : Severity) (hs : List PathHop) → rank s ≤ rank (consider_hops s hs)
unfolding consider_hops
consider_hops-le s [] = omega arith
consider_hops-le s (h ∷ hs) = omega (
  arith,
  (consider-le s h.from).0,
  (consider-le (consider s h.from) h.to).0,
  consider_hops-le (consider (consider s h.from) h.to) hs,
)

consider_hops-Reaches :
    (s : Severity) (c : Capability) (hs : List PathHop)
    → Reaches c hs
    → rank (cap_severity c) ≤ rank (consider_hops s hs)
unfolding consider_hops
consider_hops-Reaches s c [] h = elim h [ ]
consider_hops-Reaches s c (x ∷ hs) (inl e) = rw (← e) (
    omega (
      arith,
      (consider-le (consider s x.from) x.to).1,
      consider_hops-le (consider (consider s x.from) x.to) hs,
    ))
consider_hops-Reaches s c (x ∷ hs) (inr h) =
    consider_hops-Reaches (consider (consider s x.from) x.to) c hs h

path_severity-Reaches :
    (c : Capability) (hs : List PathHop) (cur : Capability)
    → Reaches c hs
    → rank (cap_severity c) ≤ rank (path_severity hs cur)
unfolding path_severity
path_severity-Reaches c hs cur h = omega (
  arith,
  consider_hops-Reaches Severity.info c hs h,
  (consider-le (consider_hops Severity.info hs) cur).0,
)

is_critical : (s : Severity) → 5 ≤ rank s → s ≡ Severity.critical
unfolding rank
is_critical Severity.critical h = refl
is_critical Severity.high h = absurd (omega (arith, h))
is_critical Severity.medium h = absurd (omega (arith, h))
is_critical Severity.low h = absurd (omega (arith, h))
is_critical Severity.info h = absurd (omega (arith, h))
is_critical (Severity.other s) h = absurd (omega (arith, h))

module _ (quote : String → String) where
  -- A walk that reaches a critical capability ends as a critical path.
  finish-critical :
      (w : Workload) (c : Capability) (k : Walk)
      → cap_severity c ≡ Severity.critical
      → Reaches c k.hops
      → (p : AttackPath) × (finish quote w k ≡ some p)
        × (p.severity ≡ Severity.critical)
        × Reaches c p.hops
  unfolding finish rank
  finish-critical w c k s r =
      let worst : path_severity k.hops k.cur ≡ Severity.critical =
        is_critical (path_severity k.hops k.cur) (
          subst (λ x. rank x ≤ rank (path_severity k.hops k.cur)) s
            (path_severity-Reaches c k.hops k.cur r)) in
      elim (Option-cases (finish quote w k)) [
        | inl e ↦ absurd (none-some (sym (rw (worst, finish) at e)))
        | inr (p, e) ↦
            let ends = finish-Ends quote w k p e in (p, e, ends.worst ∙ worst, rw ends.same_hops r)
      ]

  -- The walk after the hop of an exposing service.
  abbrev ingress : Workload → String → Walk
  ingress w svc =
      add (record { hops = []; cur = Capability.internet_ingress }) Capability.network_reachable
        kg_exposure ("T1190" ∷ [])
        (cat
          ("Internet-facing Service " ∷ quote svc ∷ " exposes workload " ∷ quote w.name ∷ "." ∷ []))

  pub enter-cur :
      (g : Graph) (w : Workload) (b : Bool)
      → ((svc : String) × (exposing_service g w ≡ some svc)) ⊎ ((workload_escape w || b) ≡ true)
      → (k : Walk) × (enter quote g w b ≡ some k) × (k.cur ≡ Capability.network_reachable)
  unfolding enter add
  enter-cur g w b (inl (svc, e)) = (ingress w svc, rw (e, enter) refl, refl)
  enter-cur g w b (inr y) = elim (Option-cases (exposing_service g w)) [
    | inr (svc, e) ↦ (ingress w svc, rw (e, enter) refl, refl)
    | inl e ↦
        (record { hops = []; cur = Capability.network_reachable }, rw (e, y, enter) refl, refl)
  ]

  escape-foothold :
      (w : Workload) (k : Walk)
      → k.cur ≡ Capability.network_reachable
      → foothold_in_cluster (escape quote w k).cur ≡ true
  unfolding escape add foothold_in_cluster
  escape-foothold w k e = elim (Bool-cases (workload_escape w)) [
    | inl y ↦ rw (y, escape) refl
    | inr n ↦ rw (n, escape, e) refl
  ]

  module _ (g : Graph) (w : Workload) (b : Bool) where
    ended :
        (k : Walk)
        → enter quote g w b ≡ some k
        → (c : Capability) → cap_severity c ≡ Severity.critical
        → Reaches c (harvest quote g w (escape quote w k)).hops
        → (p : AttackPath) × (build_for_workload quote g w b ≡ some p)
          × (p.severity ≡ Severity.critical)
          × Reaches c p.hops
    unfolding build_for_workload chain
    ended k e c s r =
        let kept =
          spread-keeps quote (λ to by. Unit {0}) (λ x. Reaches c x.hops) (add-keeps c) g w
            (any_cause g w) (harvest quote g w (escape quote w k)) r in
        let (p, f, q, h) = finish-critical w c (chain quote g w k) s kept in
        (p, rw (e, build_for_workload) f, q, h)

    -- A workload that can escape has a critical path to the node, whether or not a breach is
    -- assumed.
    pub escape-detected :
        workload_escape w ≡ true
        → (p : AttackPath) × (build_for_workload quote g w b ≡ some p)
          × (p.severity ≡ Severity.critical)
          × Reaches Capability.node_access p.hops
    unfolding escape cap_severity
    escape-detected y =
        let (k, e, c) = enter-cur g w b (inr (rw y refl)) in
        let r : Reaches Capability.node_access (escape quote w k).hops =
          rw (y, escape) (add-Reaches _ _ _ _ _) in
        ended k e Capability.node_access refl (
          harvest-keeps quote (λ to by. Unit {0}) (λ x. Reaches Capability.node_access x.hops)
            (add-keeps Capability.node_access) g w (any_cause g w) _ r)

    harvest-admin :
        (k : Walk)
        → automount_on g w ≡ true
        → sa_is_cluster_admin g w.namespace w.service_account_name ≡ true
        → foothold_in_cluster k.cur ≡ true
        → Reaches Capability.cluster_admin (harvest quote g w k).hops
    unfolding harvest escalate
    harvest-admin k m a f = rw (m, f, a, harvest, escalate) (add-Reaches _ _ _ _ _)

    -- A workload that is exposed, can escape, or is assumed to be breached, and that has the token of
    -- a cluster-admin account mounted, has a critical path to cluster-admin.
    pub takeover-detected :
        ((svc : String) × (exposing_service g w ≡ some svc)) ⊎ ((workload_escape w || b) ≡ true)
        → automount_on g w ≡ true
        → sa_is_cluster_admin g w.namespace w.service_account_name ≡ true
        → (p : AttackPath) × (build_for_workload quote g w b ≡ some p)
          × (p.severity ≡ Severity.critical)
          × Reaches Capability.cluster_admin p.hops
    unfolding cap_severity
    takeover-detected entry m a =
        let (k, e, c) = enter-cur g w b entry in
        ended k e Capability.cluster_admin refl
          (harvest-admin (escape quote w k) m a (escape-foothold w k c))
