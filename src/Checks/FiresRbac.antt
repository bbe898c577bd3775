-- ===== src/Checks/FiresRbac.antt =====
-- When the checks on roles and bindings fire: KG-011, KG-013 and KG-014.
use kubeguard.Prelude.{
  false-true, String, Bool, true, false, List, [], ◌∷◌, Option, none, some, ◌≡◌, refl, sym, ap, ◌∙◌,
  ◌⊎◌, inl, inr, arith, ◌==◌, eq_iff, Bool-cases, Option-cases, Any, In, any, true-any, Any-imp,
  map-Any, flat_map-Any, Any-append_left, Any-append_right, Any-In, All-In, find-some, MapRange,
  if◌then◌else◌, cat, Any-witness,
}
use mathlib.Core.Path.{subst}
use kubeguard.Model.{Resource, PolicyRule, Role, ClusterRole, RoleRef, Subject}
use kubeguard.Graph.{Graph}
use kubeguard.Graph.Build.Typed.{IsTyped}
use kubeguard.Graph.Resolve.{role_named, cluster_role_named, resolve_ref}
use kubeguard.Graph.Rbac.{
  rule_full_wildcard, rule_grants_secrets, rule_grants_pod_create, is_cluster_admin_ref,
  sa_is_cluster_admin, sa_can_read_secrets, sa_can_create_pods,
}
use kubeguard.Graph.Rbac.Powers.{
  Names, Granted, IsAdminGrant, Brings, sa_is_cluster_admin_iff, sa_powers_iff,
}
use kubeguard.Checks.Check.{Meta, finding, ref, ev}
use kubeguard.Checks.RbacChecks.{
  find_role_rules, has_priv_subject, all_roles, rules_of, wildcard_reason, admin_reason,
  check_binding, cluster_admin_binding_run, per_role, secrets_access_run, pod_create_run,
  secrets_access_meta, pod_create_meta,
}
use kubeguard.Checks.Fires.{
  Fires, Reports, cluster_admin_binding-Fires, secrets_access-Fires, pod_create-Fires,
}

abbrev rules_or_none : Option (List PolicyRule) → List PolicyRule
rules_or_none none = []
rules_or_none (some rules) = rules

-- The rules of a reference, by the graph and by the checks.
resolve_ref-rules :
    (g : Graph) (ref : RoleRef) (name : String)
    → (resolve_ref g ref name).rules ≡ rules_or_none (find_role_rules g ref.kind ref.name)
unfolding resolve_ref find_role_rules
resolve_ref-rules g ref name = ground arith

has_priv_of_Names :
    (ns name binding_ns : String) (subs : List Subject)
    → Names ns name binding_ns subs
    → has_priv_subject subs ≡ true
unfolding has_priv_subject
has_priv_of_Names ns name binding_ns subs h =
    true-any _ subs (Any-imp (λ s q. ground (arith, eq_iff s.kind "ServiceAccount")) subs h)

resolve_ref-ref :
    (g : Graph) (ref : RoleRef) (name : String) → (resolve_ref g ref name).role_ref ≡ ref
unfolding resolve_ref
resolve_ref-ref g ref name = ground arith

wildcard_reason-some :
    (rr : RoleRef) (rules : Option (List PolicyRule))
    → Any (λ r. rule_full_wildcard r ≡ true) (rules_or_none rules)
    → (why : String) × (wildcard_reason rr rules ≡ some why)
wildcard_reason-some rr none h = elim h [ ]
wildcard_reason-some rr (some rules) h =
    (cat ("wildcard " ∷ rr.kind ∷ " " ∷ rr.name ∷ []), rw (true-any rule_full_wildcard rules h))

admin_reason-some :
    (g : Graph) (rr : RoleRef) (name : String)
    → IsAdminGrant (resolve_ref g rr name)
    → (why : String) × (admin_reason g rr ≡ some why)
unfolding admin_reason
admin_reason-some g rr name h = elim (Bool-cases (is_cluster_admin_ref rr)) [
  | inl y ↦ ("cluster-admin", rw y)
  | inr n ↦ rw n (elim h [
    | inl (k, nm) ↦ absurd (
        ground (
          arith,
          resolve_ref-ref g rr name,
          eq_iff rr.kind "ClusterRole",
          eq_iff rr.name "cluster-admin",
        ))
    | inr rules ↦
        wildcard_reason-some rr (find_role_rules g rr.kind rr.name)
          (subst (Any (λ r. rule_full_wildcard r ≡ true)) (resolve_ref-rules g rr name) rules)
  ])
]

check_binding-Reports :
    (g : Graph) (r : Resource) (rr : RoleRef) (subs : List Subject) (ns name binding_ns b : String)
    → Names ns name binding_ns subs
    → IsAdminGrant (resolve_ref g rr b)
    → Reports "KG-011" (check_binding g r rr subs)
unfolding check_binding finding
check_binding-Reports g r rr subs ns name binding_ns b h k =
    let (why, e) = admin_reason-some g rr b k in
    rw (has_priv_of_Names ns name binding_ns subs h, e) (inl refl)

-- A ServiceAccount that is cluster-admin makes KG-011 fire.
pub Fires-of_cluster_admin :
    (m : MapRange) (g : Graph) (ns name : String)
    → sa_is_cluster_admin g ns name ≡ true
    → Fires m g "KG-011"
unfolding cluster_admin_binding_run
Fires-of_cluster_admin m g ns name h =
    cluster_admin_binding-Fires m g (elim ((sa_is_cluster_admin_iff g ns name).0 h) [
      | inl a ↦
          Any-append_left (λ x. x.id ≡ "KG-011") _ _
            (flat_map-Any (λ x. x.id ≡ "KG-011") _ g.cluster_role_bindings
              (Any-imp
                (λ b q.
                  check_binding-Reports g b.resource b.role_ref b.subjects ns name "" b.name q.0
                    q.1)
                g.cluster_role_bindings a))
      | inr a ↦
          Any-append_right (λ x. x.id ≡ "KG-011") _ _
            (flat_map-Any (λ x. x.id ≡ "KG-011") _ g.role_bindings
              (Any-imp
                (λ b q.
                  check_binding-Reports g b.resource b.role_ref b.subjects ns name b.namespace
                    b.name q.0 q.1)
                g.role_bindings a))
    ])

find_cluster_rules :
    (g : Graph) (kind name : String) (cr : ClusterRole)
    → kind ≡ "ClusterRole"
    → cluster_role_named name g.cluster_roles ≡ some cr
    → find_role_rules g kind name ≡ some cr.rules
unfolding find_role_rules
find_cluster_rules g kind name cr k e = ground (arith, eq_iff kind "ClusterRole")

find_local_rules :
    (g : Graph) (kind name : String) (r : Role)
    → kind ≡ "Role"
    → role_named name g.roles ≡ some r
    → find_role_rules g kind name ≡ some r.rules
unfolding find_role_rules
find_local_rules g kind name r k e =
    ground (arith, eq_iff kind "ClusterRole", eq_iff kind "Role", eq_iff "Role" "ClusterRole")

-- Either no role is found, or a role object of the right list is.
find_role_rules-cases :
    (g : Graph) (kind name : String)
    → (find_role_rules g kind name ≡ none)
      ⊎ (((cr : ClusterRole) × (cluster_role_named name g.cluster_roles ≡ some cr)
            × (find_role_rules g kind name ≡ some cr.rules))
          ⊎ ((r : Role) × (role_named name g.roles ≡ some r)
              × (find_role_rules g kind name ≡ some r.rules)))
unfolding find_role_rules
find_role_rules-cases g kind name = elim (Bool-cases (kind == "ClusterRole")) [
  | inl y ↦ elim (Option-cases (cluster_role_named name g.cluster_roles)) [
    | inl e ↦ inl (ground arith)
    | inr (cr, e) ↦ inr (inl (cr, e, ground arith))
  ]
  | inr n ↦ elim (Bool-cases (kind == "Role")) [
    | inr n' ↦ inl (ground arith)
    | inl y ↦ elim (Option-cases (role_named name g.roles)) [
      | inl e ↦ inl (ground arith)
      | inr (r, e) ↦ inr (inr (r, e, ground arith))
    ]
  ]
]

-- The checks read the rules of a role object back by its kind and name, and find those of the
-- first object with the name.
rules_of-cluster :
    (g : Graph) (name : String) (cr : ClusterRole)
    → IsTyped g
    → cluster_role_named name g.cluster_roles ≡ some cr
    → In cr.resource (all_roles g) × (rules_of g cr.resource ≡ cr.rules)
unfolding rules_of all_roles
rules_of-cluster g name cr typed e =
    let (i, n) = find-some (λ r. r.name == name) g.cluster_roles cr e in
    let k = All-In (λ r. r.kind ≡ "ClusterRole") cr g.cluster_roles typed.cluster i in
    let n' = (eq_iff cr.name name).0 n in
    let found =
      find_cluster_rules g cr.kind cr.name cr k
        (subst (λ x. cluster_role_named x g.cluster_roles ≡ some cr) (sym n') e) in
    (
      Any-append_right (λ x. x ≡ cr.resource) _ _
          (map-Any (λ x. x ≡ cr.resource) (λ r. r.resource) g.cluster_roles
            (Any-imp (λ x q. ap (λ y. y.resource) q) g.cluster_roles i)),
      rw (found, rules_of),
    )

rules_of-local :
    (g : Graph) (name : String) (r : Role)
    → IsTyped g
    → role_named name g.roles ≡ some r
    → In r.resource (all_roles g) × (rules_of g r.resource ≡ r.rules)
unfolding rules_of all_roles
rules_of-local g name r typed e =
    let (i, n) = find-some (λ x. x.name == name) g.roles r e in
    let k = All-In (λ x. x.kind ≡ "Role") r g.roles typed.local i in
    let n' = (eq_iff r.name name).0 n in
    let found =
      find_local_rules g r.kind r.name r k
        (subst (λ x. role_named x g.roles ≡ some r) (sym n') e) in
    (
      Any-append_left (λ x. x ≡ r.resource) _ _
          (map-Any (λ x. x ≡ r.resource) (λ x. x.resource) g.roles
            (Any-imp (λ x q. ap (λ y. y.resource) q) g.roles i)),
      rw (found, rules_of),
    )

-- A loaded role behind a reference that resolves to some rule.
named_role :
    (g : Graph) (test : PolicyRule → Bool) (rr : RoleRef) (b : String)
    → IsTyped g
    → Any (λ r. test r ≡ true) (resolve_ref g rr b).rules
    → (r : Resource) × In r (all_roles g) × (any test (rules_of g r) ≡ true)
named_role g test rr b typed h =
    let rules = subst (Any (λ r. test r ≡ true)) (resolve_ref-rules g rr b) h in
    elim (find_role_rules-cases g rr.kind rr.name) [
      | inl e ↦ absurd (subst (λ o. Any (λ r. test r ≡ true) (rules_or_none o)) e rules)
      | inr (inl (cr, c, e)) ↦
          let (i, same) = rules_of-cluster g rr.name cr typed c in
          (
            cr.resource,
            i,
            rw same (
                true-any test cr.rules
                  (subst (λ o. Any (λ r. test r ≡ true) (rules_or_none o)) e rules)),
          )
      | inr (inr (r, c, e)) ↦
          let (i, same) = rules_of-local g rr.name r typed c in
          (
            r.resource,
            i,
            rw same (
                true-any test r.rules
                  (subst (λ o. Any (λ x. test x ≡ true) (rules_or_none o)) e rules)),
          )
    ]

per_role-Reports :
    (test : PolicyRule → Bool) (mt : Meta) (path value : String) (g : Graph) (r : Resource)
    → In r (all_roles g)
    → any test (rules_of g r) ≡ true
    → Reports mt.id (per_role test mt path value g)
unfolding per_role
per_role-Reports test mt path value g r i h =
    flat_map-Any (λ x. x.id ≡ mt.id) _ (all_roles g)
      (Any-In
        (λ r'.
          Reports mt.id
            (if any test (rules_of g r') then finding mt (ref r') (ev path value) ∷ [] else []))
        r (all_roles g) i (rw h (unfold finding in inl refl)))

-- An account that is not cluster-admin has a power only by a loaded role.
powered_role :
    (g : Graph) (ns name : String) (test : PolicyRule → Bool)
    → IsTyped g
    → sa_is_cluster_admin g ns name ≡ false
    → Granted g ns name (Brings test)
    → (r : Resource) × In r (all_roles g) × (any test (rules_of g r) ≡ true)
powered_role g ns name test typed not_adm (inl a) =
    let (b, i, q) = Any-witness g.cluster_role_bindings a in
    elim q.1 [
      | inr rules ↦ named_role g test b.role_ref b.name typed rules
      | inl admin ↦ absurd (not_admin (inl (Any-In _ b g.cluster_role_bindings i (q.0, inl admin))))
    ]
  where
    not_admin : Granted g ns name IsAdminGrant → ⊥
    not_admin k = absurd (false-true (sym not_adm ∙ (sa_is_cluster_admin_iff g ns name).1 k))
powered_role g ns name test typed not_adm (inr a) =
    let (b, i, q) = Any-witness g.role_bindings a in
    elim q.1 [
      | inr rules ↦ named_role g test b.role_ref b.name typed rules
      | inl admin ↦ absurd (not_admin (inr (Any-In _ b g.role_bindings i (q.0, inl admin))))
    ]
  where
    not_admin : Granted g ns name IsAdminGrant → ⊥
    not_admin k = absurd (false-true (sym not_adm ∙ (sa_is_cluster_admin_iff g ns name).1 k))

-- In a graph whose roles are sorted by kind, an account that can read secrets without being
-- cluster-admin makes KG-013 fire.
pub Fires-of_secrets :
    (m : MapRange) (g : Graph) (ns name : String)
    → IsTyped g
    → sa_is_cluster_admin g ns name ≡ false
    → sa_can_read_secrets g ns name ≡ true
    → Fires m g "KG-013"
unfolding secrets_access_run
Fires-of_secrets m g ns name typed not_adm h =
    let (r, i, t) =
      powered_role g ns name rule_grants_secrets typed not_adm ((sa_powers_iff g ns name).0.0 h) in
    secrets_access-Fires m g (per_role-Reports rule_grants_secrets secrets_access_meta _ _ g r i t)

-- In a graph whose roles are sorted by kind, an account that can create pods without being
-- cluster-admin makes KG-014 fire.
pub Fires-of_pods :
    (m : MapRange) (g : Graph) (ns name : String)
    → IsTyped g
    → sa_is_cluster_admin g ns name ≡ false
    → sa_can_create_pods g ns name ≡ true
    → Fires m g "KG-014"
unfolding pod_create_run
Fires-of_pods m g ns name typed not_adm h =
    let (r, i, t) =
      powered_role g ns name rule_grants_pod_create typed not_adm
        ((sa_powers_iff g ns name).1.0 h) in
    pod_create-Fires m g (per_role-Reports rule_grants_pod_create pod_create_meta _ _ g r i t)
