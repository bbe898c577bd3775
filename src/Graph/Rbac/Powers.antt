-- ===== src/Graph/Rbac/Powers.antt =====
-- What the answers about a ServiceAccount mean, and how they hang together.
use kubeguard.Prelude.{
  String, Bool, true, List, map, ◌≡◌, refl, ◌↔◌, ◌⊎◌, inl, inr, arith, eq_iff, Bool-cases, any, Any,
  any_iff, any-true, true-any, Any-imp, Any-filter, filter-Any, Any-map, map-Any, Any-append_cases,
  Any-append_left, Any-append_right, Any-flat_map, flat_map-Any, filter,
}
use kubeguard.Model.{PolicyRule, Subject}
use kubeguard.Graph.{Graph}
use kubeguard.Graph.Resolve.{
  GrantedRole, subject_namespace, is_account, subjects_include, resolve_ref, binds_cluster, binds,
  granted_roles_for_sa,
}
use kubeguard.Graph.Rbac.{
  has, rule_full_wildcard, rule_grants_secrets, rule_grants_pod_create, is_cluster_admin_ref,
  full_rule, rules_of_grant, sa_rules, grants_admin, sa_is_cluster_admin, sa_can_read_secrets,
  sa_can_create_pods,
}

-- Some subject is the ServiceAccount `ns/name`; one without a namespace is in the binding's.
abbrev pub Names : String → String → String → List Subject → Type 0
Names ns name binding_ns =
    Any (λ s. (s.kind ≡ "ServiceAccount") × (s.name ≡ name) × (subject_namespace binding_ns s ≡ ns))

account_iff :
    (ns name binding_ns : String) (s : Subject)
    → (is_account ns name binding_ns s ≡ true)
      ↔ ((s.kind ≡ "ServiceAccount") × (s.name ≡ name) × (subject_namespace binding_ns s ≡ ns))
account_iff ns name binding_ns s = ground (
  arith,
  eq_iff s.kind "ServiceAccount",
  eq_iff s.name name,
  eq_iff (subject_namespace binding_ns s) ns,
)

pub subjects_include_iff :
    (subjects : List Subject) (ns name binding_ns : String)
    → (subjects_include subjects ns name binding_ns ≡ true) ↔ Names ns name binding_ns subjects
unfolding subjects_include
subjects_include_iff subjects ns name binding_ns =
    let at_subject = λ (s : Subject). account_iff ns name binding_ns s in
    (
      λ h. Any-imp (λ s. (at_subject s).0) subjects ((any_iff _ subjects).0 h),
      λ h. (any_iff _ subjects).1 (Any-imp (λ s. (at_subject s).1) subjects h),
    )

-- A role granted to the account by some binding of the graph satisfies `P`.
abbrev pub Granted : Graph → String → String → (GrantedRole → Type 0) → Type 0
Granted g ns name P =
    Any (λ b. Names ns name "" b.subjects × P (resolve_ref g b.role_ref b.name))
      g.cluster_role_bindings
    ⊎ Any (λ b. Names ns name b.namespace b.subjects × P (resolve_ref g b.role_ref b.name))
        g.role_bindings

granted_part :
    {B : Type 0} (P : GrantedRole → Type 0) (test : B → Bool) (f : B → GrantedRole) (Q : B → Type 0)
    → ((b : B) → (test b ≡ true) ↔ Q b)
    → (bs : List B) → Any P (map f (filter test bs)) ↔ Any (λ b. Q b × P (f b)) bs
granted_part P test f Q iff bs = (
  λ h.
      Any-imp (λ b q. ((iff b).0 q.1, q.0)) bs
        (Any-filter test (λ b. P (f b)) bs (Any-map P f (filter test bs) h)),
  λ h.
      map-Any P f (filter test bs)
        (filter-Any test (λ b. P (f b)) bs (Any-imp (λ b q. (q.1, (iff b).1 q.0)) bs h)),
)

-- The roles of an account are those that some binding which names it grants.
pub granted_roles_iff :
    (g : Graph) (ns name : String) (P : GrantedRole → Type 0)
    → Any P (granted_roles_for_sa g ns name) ↔ Granted g ns name P
unfolding granted_roles_for_sa
granted_roles_iff g ns name P =
    let cluster =
      granted_part P (binds_cluster ns name) (λ b. resolve_ref g b.role_ref b.name)
        (λ b. Names ns name "" b.subjects) (λ b. subjects_include_iff b.subjects ns name "")
        g.cluster_role_bindings in
    let local =
      granted_part P (binds ns name) (λ b. resolve_ref g b.role_ref b.name)
        (λ b. Names ns name b.namespace b.subjects)
        (λ b. subjects_include_iff b.subjects ns name b.namespace) g.role_bindings in
    (
      λ h. elim (Any-append_cases P _ _ h) [ inl a ↦ inl (cluster.0 a) | inr b ↦ inr (local.0 b) ],
      λ h. elim h [
        | inl a ↦ Any-append_left P _ _ (cluster.1 a)
        | inr b ↦ Any-append_right P _ _ (local.1 b)
      ],
    )

-- A rule that grants everything grants reading secrets, and creating pods.
full_grants_secrets : (r : PolicyRule) → rule_full_wildcard r ≡ true → rule_grants_secrets r ≡ true
unfolding rule_full_wildcard rule_grants_secrets
full_grants_secrets r h = ground arith

full_grants_pods : (r : PolicyRule) → rule_full_wildcard r ≡ true → rule_grants_pod_create r ≡ true
unfolding rule_full_wildcard rule_grants_pod_create
full_grants_pods r h = ground arith

full_rule_full : rule_full_wildcard full_rule ≡ true
unfolding rule_full_wildcard has any
full_rule_full = refl

-- A grant of cluster-admin brings a rule that grants everything.
admin_grant_rules :
    (gr : GrantedRole)
    → grants_admin gr ≡ true
    → Any (λ r. rule_full_wildcard r ≡ true) (rules_of_grant gr)
admin_grant_rules gr h = elim (Bool-cases (is_cluster_admin_ref gr.role_ref)) [
  | inl y ↦ rw y (inl full_rule_full)
  | inr n ↦ rw n (any-true rule_full_wildcard gr.rules (rw n at h))
]

admin_rules :
    (g : Graph) (ns name : String)
    → sa_is_cluster_admin g ns name ≡ true
    → Any (λ r. rule_full_wildcard r ≡ true) (sa_rules g ns name)
unfolding sa_is_cluster_admin sa_rules
admin_rules g ns name h =
    flat_map-Any (λ r. rule_full_wildcard r ≡ true) rules_of_grant (granted_roles_for_sa g ns name)
      (Any-imp admin_grant_rules _ (any-true grants_admin _ h))

-- A ServiceAccount that is cluster-admin can read secrets and can create pods.
pub cluster_admin-powers :
    (g : Graph) (ns name : String)
    → sa_is_cluster_admin g ns name ≡ true
    → (sa_can_read_secrets g ns name ≡ true) × (sa_can_create_pods g ns name ≡ true)
unfolding sa_can_read_secrets sa_can_create_pods
cluster_admin-powers g ns name h = (
  true-any rule_grants_secrets _ (Any-imp full_grants_secrets _ (admin_rules g ns name h)),
  true-any rule_grants_pod_create _ (Any-imp full_grants_pods _ (admin_rules g ns name h)),
)

-- The role is the built-in cluster-admin, or it has a rule that grants everything.
abbrev pub IsAdminGrant : GrantedRole → Type 0
IsAdminGrant gr =
    ((gr.role_ref.kind ≡ "ClusterRole") × (gr.role_ref.name ≡ "cluster-admin"))
    ⊎ Any (λ r. rule_full_wildcard r ≡ true) gr.rules

grants_admin_iff : (gr : GrantedRole) → (grants_admin gr ≡ true) ↔ IsAdminGrant gr
grants_admin_iff gr = ground (
  arith,
  eq_iff gr.role_ref.kind "ClusterRole",
  eq_iff gr.role_ref.name "cluster-admin",
  any_iff rule_full_wildcard gr.rules,
)

-- A ServiceAccount counts as cluster-admin exactly if some binding that names it grants it the
-- built-in cluster-admin role, or a role that resolves to one with a full wildcard rule.
pub sa_is_cluster_admin_iff :
    (g : Graph) (ns name : String)
    → (sa_is_cluster_admin g ns name ≡ true) ↔ Granted g ns name IsAdminGrant
unfolding sa_is_cluster_admin
sa_is_cluster_admin_iff g ns name =
    let roles = granted_roles_iff g ns name IsAdminGrant in
    (
      λ h. roles.0 (Any-imp (λ gr. (grants_admin_iff gr).0) _ (any-true grants_admin _ h)),
      λ h. true-any grants_admin _ (Any-imp (λ gr. (grants_admin_iff gr).1) _ (roles.1 h)),
    )

-- The role is the built-in cluster-admin, or it has a rule that satisfies the test.
abbrev pub Brings : (PolicyRule → Bool) → GrantedRole → Type 0
Brings test gr =
    ((gr.role_ref.kind ≡ "ClusterRole") × (gr.role_ref.name ≡ "cluster-admin"))
    ⊎ Any (λ r. test r ≡ true) gr.rules

rules_of_grant_iff :
    (test : PolicyRule → Bool) (gr : GrantedRole)
    → test full_rule ≡ true
    → Any (λ r. test r ≡ true) (rules_of_grant gr) ↔ Brings test gr
rules_of_grant_iff test gr h = elim (Bool-cases (is_cluster_admin_ref gr.role_ref)) [
  | inl y ↦ (
    λ _. inl (
        ground
          (arith, eq_iff gr.role_ref.kind "ClusterRole", eq_iff gr.role_ref.name "cluster-admin")),
    λ _. rw y (inl h),
  )
  | inr n ↦ rw n (
    λ a. inr a,
    λ b. elim b [
      | inl e ↦ absurd (
          ground
            (arith, eq_iff gr.role_ref.kind "ClusterRole", eq_iff gr.role_ref.name "cluster-admin"))
      | inr a ↦ a
    ],
  )
]

sa_rules_iff :
    (test : PolicyRule → Bool) (g : Graph) (ns name : String)
    → test full_rule ≡ true
    → (any test (sa_rules g ns name) ≡ true) ↔ Granted g ns name (Brings test)
unfolding sa_rules
sa_rules_iff test g ns name full =
    let roles = granted_roles_iff g ns name (Brings test) in
    (
      λ h. roles.0 (
          Any-imp (λ gr. (rules_of_grant_iff test gr full).0) (granted_roles_for_sa g ns name)
            (Any-flat_map (λ r. test r ≡ true) rules_of_grant _ (any-true test _ h))),
      λ h. true-any test _ (
          flat_map-Any (λ r. test r ≡ true) rules_of_grant _
            (Any-imp (λ gr. (rules_of_grant_iff test gr full).1) (granted_roles_for_sa g ns name)
              (roles.1 h))),
    )

-- A ServiceAccount can read secrets, or create pods, exactly if some binding that names it grants
-- it the built-in cluster-admin role or a role with a rule that allows this.
pub sa_powers_iff :
    (g : Graph) (ns name : String)
    → ((sa_can_read_secrets g ns name ≡ true) ↔ Granted g ns name (Brings rule_grants_secrets))
      × ((sa_can_create_pods g ns name ≡ true) ↔ Granted g ns name (Brings rule_grants_pod_create))
unfolding sa_can_read_secrets sa_can_create_pods
sa_powers_iff g ns name = (
  sa_rules_iff rule_grants_secrets g ns name (full_grants_secrets full_rule full_rule_full),
  sa_rules_iff rule_grants_pod_create g ns name (full_grants_pods full_rule full_rule_full),
)
