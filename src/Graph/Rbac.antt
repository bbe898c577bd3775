-- ===== src/Graph/Rbac.antt =====
-- internal/graph/rbac.go: what a rule grants, and what a ServiceAccount may do.
pub mod Powers
use kubeguard.Prelude.{
  String, Bool, true, false, ◌&&◌, ◌||◌, List, [], ◌∷◌, ◌++◌, ◌==◌, if◌then◌else◌, any, flat_map,
}
use kubeguard.Model.{PolicyRule, RoleRef}
use kubeguard.Graph.{Graph}
use kubeguard.Graph.Resolve.{GrantedRole, granted_roles_for_sa}

unfoldable pub has : List String → String → Bool
unfolding any
has ss want = any (λ s. s == want) ss

unfoldable pub has_any : List String → List String → Bool
unfolding has
has_any ss wants = any (has ss) wants

abbrev pub wildcard : List String → Bool
wildcard ss = has ss "*"

unfoldable pub rule_full_wildcard : PolicyRule → Bool
rule_full_wildcard r = wildcard r.api_groups && wildcard r.resources && wildcard r.verbs

unfoldable pub rule_any_wildcard : PolicyRule → Bool
rule_any_wildcard r = wildcard r.api_groups || wildcard r.resources || wildcard r.verbs

unfoldable pub rule_grants_secrets : PolicyRule → Bool
rule_grants_secrets r =
    (has r.resources "secrets" || wildcard r.resources)
    && (has_any r.verbs ("get" ∷ "list" ∷ "watch" ∷ []) || wildcard r.verbs)

unfoldable pub rule_grants_pod_create : PolicyRule → Bool
rule_grants_pod_create r =
    if (has r.resources "pods" || wildcard r.resources)
      && (has r.verbs "create" || wildcard r.verbs)
    then true
    else has r.resources "pods/exec" || has r.resources "pods/attach"

-- `gr.RoleRef.Kind == "ClusterRole" && gr.RoleRef.Name == "cluster-admin"`
abbrev pub is_cluster_admin_ref : RoleRef → Bool
is_cluster_admin_ref ref = ref.kind == "ClusterRole" && ref.name == "cluster-admin"

abbrev pub star : List String
star = "*" ∷ []

abbrev pub full_rule : PolicyRule
full_rule = record { api_groups = star; resources = star; verbs = star; resource_names = [] }

-- One round of the loop of `saRules`.
abbrev pub rules_of_grant : GrantedRole → List PolicyRule
rules_of_grant gr = if is_cluster_admin_ref gr.role_ref then full_rule ∷ gr.rules else gr.rules

unfoldable pub sa_rules : Graph → String → String → List PolicyRule
unfolding flat_map
sa_rules g ns name = flat_map rules_of_grant (granted_roles_for_sa g ns name)

-- One round of the loop of `SAIsClusterAdmin`.
abbrev pub grants_admin : GrantedRole → Bool
grants_admin gr = is_cluster_admin_ref gr.role_ref || any rule_full_wildcard gr.rules

unfoldable pub sa_is_cluster_admin : Graph → String → String → Bool
sa_is_cluster_admin g ns name = any grants_admin (granted_roles_for_sa g ns name)

unfoldable pub sa_can_read_secrets : Graph → String → String → Bool
sa_can_read_secrets g ns name = any rule_grants_secrets (sa_rules g ns name)

unfoldable pub sa_can_create_pods : Graph → String → String → Bool
sa_can_create_pods g ns name = any rule_grants_pod_create (sa_rules g ns name)
