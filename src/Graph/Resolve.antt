-- ===== src/Graph/Resolve.antt =====
-- internal/graph/resolve.go: the relations between the objects of a graph.
use kubeguard.Prelude.{
  nonempty, String, Bool, true, false, ◌&&◌, List, [], ◌∷◌, ◌++◌, map, Option, none, some, ◌==◌,
  if◌then◌else◌, any, all, filter, find,
}
use kubeguard.Model.{
  StringMap, Workload, ServiceAccount, PolicyRule, Role, ClusterRole, RoleRef, Subject, RoleBinding,
  ClusterRoleBinding, Service, NetworkPolicy, is_default_deny,
}
use kubeguard.Graph.{Graph}

pub record GrantedRole : Type 0 where
  pub role_ref : RoleRef
  pub binding_name : String
  pub resolved : Bool
  pub rules : List PolicyRule

-- The namespace of a subject, or the binding's where it names none.
abbrev pub subject_namespace : String → Subject → String
subject_namespace binding_ns s = if s.namespace == "" then binding_ns else s.namespace

abbrev pub is_account : String → String → String → Subject → Bool
is_account ns name binding_ns s =
    s.kind == "ServiceAccount" && s.name == name && subject_namespace binding_ns s == ns

unfoldable pub subjects_include : List Subject → String → String → String → Bool
unfolding any
subjects_include subjects ns name binding_ns = any (is_account ns name binding_ns) subjects

-- The first object with the name that a reference gives, whatever its namespace.
abbrev pub role_named : String → List Role → Option Role
role_named name = find (λ r. r.name == name)

abbrev pub cluster_role_named : String → List ClusterRole → Option ClusterRole
cluster_role_named name = find (λ r. r.name == name)

unfoldable pub resolve_ref : Graph → RoleRef → String → GrantedRole
unfolding find
resolve_ref g ref binding_name =
    let unresolved : GrantedRole = record {
      role_ref = ref;
      binding_name = binding_name;
      resolved = false;
      rules = [];
    } in
    if ref.kind == "ClusterRole"
    then elim (cluster_role_named ref.name g.cluster_roles) [
      | none ↦ unresolved
      | some cr ↦ record unresolved { resolved = true; rules = cr.rules }
    ]
    else if ref.kind == "Role"
    then elim (role_named ref.name g.roles) [
      | none ↦ unresolved
      | some r ↦ record unresolved { resolved = true; rules = r.rules }
    ]
    else unresolved

abbrev pub binds_cluster : String → String → ClusterRoleBinding → Bool
binds_cluster ns name b = subjects_include b.subjects ns name ""

abbrev pub binds : String → String → RoleBinding → Bool
binds ns name b = subjects_include b.subjects ns name b.namespace

unfoldable pub granted_roles_for_sa : Graph → String → String → List GrantedRole
granted_roles_for_sa g ns name =
    map (λ b. resolve_ref g b.role_ref b.name)
      (filter (binds_cluster ns name) g.cluster_role_bindings)
    ++ map (λ b. resolve_ref g b.role_ref b.name) (filter (binds ns name) g.role_bindings)

-- `labels[k]`, "" where the key is missing.
unfoldable pub label : StringMap → String → String
label [] k = ""
label ((j, v) ∷ m) k = if j == k then v else label m k

unfoldable pub selector_matches : StringMap → StringMap → Bool
unfolding all label
selector_matches selector labels = all (λ e. label labels e.0 == e.1) selector

unfoldable pub workloads_for_service : Graph → Service → List Workload
unfolding selector_matches filter
workloads_for_service g svc =
    if nonempty svc.selector
    then filter (λ w. w.namespace == svc.namespace && selector_matches svc.selector w.pod_labels)
        g.workloads
    else []

unfoldable pub service_account_by_name : Graph → String → String → Option ServiceAccount
unfolding find
service_account_by_name g ns name =
    find (λ sa. sa.namespace == ns && sa.name == name) g.service_accounts

unfoldable pub network_policies_in_namespace : Graph → String → List NetworkPolicy
unfolding filter
network_policies_in_namespace g ns = filter (λ np. np.namespace == ns) g.network_policies

unfoldable pub has_default_deny : Graph → String → Bool
unfolding any
has_default_deny g ns = any is_default_deny (network_policies_in_namespace g ns)
