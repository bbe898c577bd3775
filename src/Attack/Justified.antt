-- ===== src/Attack/Justified.antt =====
-- internal/attack/engine.go: the findings that the hops of a path name.
use kubeguard.Prelude.{
  false-true, none-some, String, Bool, true, false, ◌||◌, List, [], ◌∷◌, some, ◌≡◌, ◌≢◌, refl, sym,
  ◌∙◌, ◌⊎◌, inl, inr, arith, ◌==◌, eq_iff, if◌then◌else◌, Bool-cases, Option-cases, All, Any, In,
  any, any-true, true-any, find, find-some, find-is_some, Any-witness, Any-In, All-append,
  Any-flat_map, flat_map-Any, flat_map, MapRange,
}
use kubeguard.Api.{Capability, AttackPath}
use kubeguard.Model.{Workload, ContainerView}
use kubeguard.Graph.{Graph}
use kubeguard.Graph.Build.Typed.{IsTyped}
use kubeguard.Graph.Resolve.{has_default_deny}
use kubeguard.Checks.Predicates.{is_dangerous_cap}
use kubeguard.Checks.NetworkChecks.{is_exposed_type}
use kubeguard.Checks.Fires.{
  Fires, Fires-of_privileged, Fires-of_cap, Fires-of_host_path, Fires-of_automount,
  Fires-of_exposed,
}
use kubeguard.Checks.FiresNetwork.{Fires-of_no_default_deny}
use kubeguard.Checks.FiresRbac.{Fires-of_cluster_admin, Fires-of_secrets, Fires-of_pods}
use kubeguard.Attack.Escape.{
  kg_privileged, kg_host_path, workload_escape, host_path_name, escape_enabler, exposing_service,
  exposes, first_escape_cap, is_escape_cap, is_escape_path,
}
use kubeguard.Attack.Engine.{Walk, add, build_paths}
use kubeguard.Attack.Keeps.{Causes, build_for_workload-keeps}
use kubeguard.Attack.Linked.{build_paths-All}

-- The workload escapes by a capability only: no privileged container and no escape path.
pub record IsCapOnly (w : Workload) : Type 0 where
  pub unprivileged : any (λ c. c.privileged) w.pod_spec.containers ≡ false
  pub no_path : host_path_name w ≡ ""

-- A hop to `to` that names the check `by`: the check fires on the graph, or the hop is one of the
-- two that no finding backs.
abbrev pub Justified : MapRange → Graph → Workload → Capability → String → Type 0
Justified m g w to by =
    Fires m g by
    ⊎ (((to ≡ Capability.node_access) × (by ≡ "KG-001") × IsCapOnly w)
        ⊎ ((to ≡ Capability.lateral_movement) × (by ≡ "KG-017") × (w.namespace ≡ "")))

is_escape_cap-dangerous : (name : String) → is_escape_cap name ≡ true → is_dangerous_cap name ≡ true
unfolding is_escape_cap is_dangerous_cap any
is_escape_cap-dangerous name h = ground arith

not_empty : (s : String) → s ≢ "" → (s == "") ≡ false
not_empty s h = elim (Bool-cases (s == "")) [ inl y ↦ absurd (h ((eq_iff s "").0 y)) | inr n ↦ n ]

exposing_service-some :
    (g : Graph) (w : Workload) (name : String)
    → exposing_service g w ≡ some name
    → Any (λ s. is_exposed_type s.type ≡ true) g.services
unfolding exposing_service
exposing_service-some g w name h = elim (Option-cases (find (exposes g w) g.services)) [
  | inl e ↦ absurd (none-some (rw (e, exposing_service) at h))
  | inr (svc, e) ↦
      let (i, q) = find-some (exposes g w) g.services svc e in
      Any-In (λ s. is_exposed_type s.type ≡ true) svc g.services i (ground arith)
]

host_path_name-some :
    (w : Workload) → host_path_name w ≢ "" → Any (λ v. v.host_path ≢ "") w.pod_spec.volumes
unfolding host_path_name
host_path_name-some w h =
    elim (Option-cases (find (λ v. is_escape_path v.host_path) w.pod_spec.volumes)) [
      | inl e ↦ absurd (h (rw (e, host_path_name)))
      | inr (v, e) ↦
          let (i, q) = find-some (λ x. is_escape_path x.host_path) w.pod_spec.volumes v e in
          Any-In (λ x. x.host_path ≢ "") v w.pod_spec.volumes i (λ z. h (rw (e, host_path_name) z))
    ]

-- The container that adds the first escape capability.
first_escape_cap-some :
    (w : Workload) (name : String)
    → first_escape_cap w ≡ some name
    → Any (λ c. Any (λ n. is_dangerous_cap n ≡ true) c.caps_add) w.pod_spec.containers
unfolding first_escape_cap
first_escape_cap-some w name h =
    let (i, q) =
      find-some is_escape_cap (flat_map (λ c. c.caps_add) w.pod_spec.containers) name h in
    Any-flat_map (λ n. is_dangerous_cap n ≡ true) (λ c. c.caps_add) w.pod_spec.containers
      (Any-In (λ n. is_dangerous_cap n ≡ true) name _ i (is_escape_cap-dangerous name q))

escape_split :
    (cs : List ContainerView)
    → Any (λ c. (c.privileged || any is_escape_cap c.caps_add) ≡ true) cs
    → (any (λ c. c.privileged) cs ≡ true)
      ⊎ Any (λ c. Any (λ n. is_escape_cap n ≡ true) c.caps_add) cs
unfolding any
escape_split [] h = elim h [ ]
escape_split (c ∷ cs) (inl h) = elim (Bool-cases c.privileged) [
  | inl y ↦ inl (ground arith)
  | inr n ↦ inr (inl (any-true is_escape_cap c.caps_add (ground arith)))
]
escape_split (c ∷ cs) (inr h) = elim (escape_split cs h) [
  | inl y ↦ inl (ground arith)
  | inr a ↦ inr (inr a)
]

escape_cap_found :
    (w : Workload)
    → Any (λ c. Any (λ n. is_escape_cap n ≡ true) c.caps_add) w.pod_spec.containers
    → (name : String) × (first_escape_cap w ≡ some name)
unfolding first_escape_cap
escape_cap_found w a =
    let caps = flat_map (λ c. c.caps_add) w.pod_spec.containers in
    find-is_some is_escape_cap caps (
      true-any is_escape_cap caps
        (flat_map-Any (λ n. is_escape_cap n ≡ true) (λ c. c.caps_add) w.pod_spec.containers a))

-- Why a workload can escape.
workload_escape-cases :
    (w : Workload)
    → workload_escape w ≡ true
    → (any (λ c. c.privileged) w.pod_spec.containers ≡ true)
      ⊎ (((name : String) × (first_escape_cap w ≡ some name)) ⊎ (host_path_name w ≢ ""))
unfolding workload_escape
workload_escape-cases w h = elim (Bool-cases (host_path_name w == "")) [
  | inr n ↦ inr (inr (λ e. false-true (sym n ∙ (eq_iff (host_path_name w) "").1 e)))
  | inl y ↦
      let caused =
        any-true (λ c. c.privileged || any is_escape_cap c.caps_add) w.pod_spec.containers
          (ground arith) in
      elim (escape_split w.pod_spec.containers caused) [
        | inl p ↦ inl p
        | inr a ↦ inr (inl (escape_cap_found w a))
      ]
]

module _ (m : MapRange) (g : Graph) (w : Workload) (i : In w g.workloads) where
  breakout-Fires : workload_escape w ≡ true → Fires m g (escape_enabler w).0
  unfolding escape_enabler
  breakout-Fires h = elim (Bool-cases (any (λ c. c.privileged) w.pod_spec.containers)) [
    | inl y ↦
        rw (y, escape_enabler)
          (Fires-of_privileged m g w i (any-true (λ c. c.privileged) w.pod_spec.containers y))
    | inr n ↦ elim (Option-cases (first_escape_cap w)) [
      | inr (name, e) ↦
          rw (n, e, escape_enabler) (Fires-of_cap m g w i (first_escape_cap-some w name e))
      | inl e ↦ elim (workload_escape-cases w h) [
        | inl y ↦ absurd (false-true (sym n ∙ y))
        | inr (inl (name, e')) ↦ absurd (none-some (sym e ∙ e'))
        | inr (inr p) ↦
            rw (n, e, not_empty (host_path_name w) p, escape_enabler)
              (Fires-of_host_path m g w i (host_path_name-some w p))
      ]
    ]
  ]

  node-Justified :
      workload_escape w ≡ true
      → Justified m g w Capability.node_access
          (if host_path_name w == "" then kg_privileged else kg_host_path)
  node-Justified h = elim (Bool-cases (host_path_name w == "")) [
    | inr n ↦ rw n (
        inl (
          Fires-of_host_path m g w i
            (host_path_name-some w (λ e. false-true (sym n ∙ (eq_iff (host_path_name w) "").1 e)))))
    | inl y ↦ rw y (elim (Bool-cases (any (λ c. c.privileged) w.pod_spec.containers)) [
      | inl p ↦
          inl (Fires-of_privileged m g w i (any-true (λ c. c.privileged) w.pod_spec.containers p))
      | inr n ↦ inr (
          inl
            (refl, refl, record { unprivileged = n; no_path = (eq_iff (host_path_name w) "").0 y }))
    ])
  ]

  lateral-Justified :
      has_default_deny g w.namespace ≡ false → Justified m g w Capability.lateral_movement "KG-017"
  lateral-Justified h = elim (Bool-cases (w.namespace == "")) [
    | inl y ↦ inr (inr (refl, refl, (eq_iff w.namespace "").0 y))
    | inr n ↦ inl (
        Fires-of_no_default_deny m g w.namespace
          (λ e. false-true (sym n ∙ (eq_iff w.namespace "").1 e))
          (Any-In (λ v. v.namespace ≡ w.namespace) w g.workloads i refl) h)
  ]

  Justified-cause : IsTyped g → Causes (Justified m g w) g w
  Justified-cause typed = record {
    exposed = λ svc e.
        let (s, j, q) = Any-witness g.services (exposing_service-some g w svc e) in
        inl (Fires-of_exposed m g s j q);
    breakout = λ h. inl (breakout-Fires h);
    node = node-Justified;
    token = λ h. inl (Fires-of_automount m g w i h);
    admin = λ h. inl (Fires-of_cluster_admin m g w.namespace w.service_account_name h);
    secrets = λ a h. inl (Fires-of_secrets m g w.namespace w.service_account_name typed a h);
    pods = λ a h. inl (Fires-of_pods m g w.namespace w.service_account_name typed a h);
    lateral = lateral-Justified;
  }

-- The hops of a path of the workload `w`.
pub record IsJustified (m : MapRange) (g : Graph) (p : AttackPath) : Type 0 where
  pub workload : Workload
  pub loaded : In workload g.workloads
  pub hops : All (λ h. Justified m g workload h.to h.enabled_by) p.hops

add-Justified :
    (J : Capability → String → Type 0) (k : Walk) (to : Capability) (by : String)
    (tech : List String) (narr : String)
    → All (λ h. J h.to h.enabled_by) k.hops
    → J to by
    → All (λ h. J h.to h.enabled_by) (add k to by tech narr).hops
unfolding add
add-Justified J k to by tech narr h j = All-append (λ x. J x.to x.enabled_by) k.hops _ h (j, tt)

-- Every hop of every path of a graph whose roles are sorted by kind names a check that fires in the
-- scan of that graph under the default profile, in any order of the maps. The exceptions are named:
-- a node access by KG-001 for a workload that escapes by a capability only, and a lateral movement
-- by KG-017 for a workload with no namespace.
pub build_paths-IsJustified :
    (quote : String → String) (m : MapRange) (g : Graph) (b : Bool)
    → IsTyped g
    → All (IsJustified m g) (build_paths quote g b)
build_paths-IsJustified quote m g b typed =
    build_paths-All quote g b (IsJustified m g)
      (λ p id h. record { workload = h.workload; loaded = h.loaded; hops = h.hops })
      (λ w p i h.
        let J = Justified m g w in
        let (k, hops, ends) =
          build_for_workload-keeps quote J (λ k. All (λ x. J x.to x.enabled_by) k.hops)
            (add-Justified J) g w (Justified-cause m g w i typed) b p tt tt h in
        record { workload = w; loaded = i; hops = rw ends.same_hops hops })
