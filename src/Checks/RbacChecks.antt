-- ===== src/Checks/RbacChecks.antt =====
-- internal/checks/rbac_checks.go: the checks on roles and bindings.
use kubeguard.Prelude.{
  String, Bool, ◌||◌, List, [], ◌∷◌, ◌++◌, map, Option, none, some, ◌==◌, if◌then◌else◌, any, find,
  flat_map, cat,
}
use kubeguard.Api.{Severity, Capability, Finding}
use kubeguard.Model.{Resource, PolicyRule, RoleRef, Subject}
use kubeguard.Graph.{Graph}
use kubeguard.Checks.Check.{Meta, finding, ref, ev, cis, nsa, attack, cat_rbac}
use kubeguard.Graph.Resolve.{role_named, cluster_role_named}
use kubeguard.Graph.Rbac.{
  rule_full_wildcard, rule_any_wildcard, rule_grants_secrets, rule_grants_pod_create,
  is_cluster_admin_ref,
}

abbrev pub cluster_admin_binding_meta : Meta
cluster_admin_binding_meta = record {
  id = "KG-011";
  title = "Binding grants cluster-admin to a ServiceAccount or group";
  severity = Severity.critical;
  category = cat_rbac;
  grants = Capability.cluster_admin ∷ [];
  refs = cis "5.1.1" ∷ nsa "RBAC" ∷ attack "T1078" ∷ [];
  remediation = "Bind a least-privilege Role instead of cluster-admin or a wildcard ClusterRole.";
}

abbrev pub wildcard_rbac_meta : Meta
wildcard_rbac_meta = record {
  id = "KG-012";
  title = "Wildcard RBAC rule";
  severity = Severity.high;
  category = cat_rbac;
  grants = Capability.broad_api_access ∷ [];
  refs = cis "5.1.3" ∷ nsa "RBAC" ∷ [];
  remediation = "Replace wildcard apiGroups/resources/verbs with the specific values required.";
}

abbrev pub secrets_access_meta : Meta
secrets_access_meta = record {
  id = "KG-013";
  title = "RBAC allows reading Secrets";
  severity = Severity.high;
  category = cat_rbac;
  grants = Capability.secret_read ∷ [];
  refs = cis "5.1.2" ∷ nsa "RBAC" ∷ attack "T1552" ∷ [];
  remediation = "Remove get/list/watch on secrets; scope to named resourceNames if unavoidable.";
}

abbrev pub pod_create_meta : Meta
pod_create_meta = record {
  id = "KG-014";
  title = "RBAC allows creating or exec-ing into pods";
  severity = Severity.high;
  category = cat_rbac;
  grants = Capability.pod_create ∷ [];
  refs = cis "5.1.4" ∷ nsa "RBAC" ∷ attack "T1610" ∷ [];
  remediation = "Remove create on pods and access to pods/exec & pods/attach.";
}

unfoldable pub find_role_rules : Graph → String → String → Option (List PolicyRule)
unfolding find
find_role_rules g kind name =
    if kind == "ClusterRole"
    then elim (cluster_role_named name g.cluster_roles) [ none ↦ none | some cr ↦ some cr.rules ]
    else if kind == "Role"
    then elim (role_named name g.roles) [ none ↦ none | some r ↦ some r.rules ]
    else none

unfoldable pub has_priv_subject : List Subject → Bool
unfolding any
has_priv_subject subjects = any (λ s. s.kind == "ServiceAccount" || s.kind == "Group") subjects

unfoldable pub all_roles : Graph → List Resource
all_roles g = map (λ r. r.resource) g.roles ++ map (λ r. r.resource) g.cluster_roles

unfoldable pub rules_of : Graph → Resource → List PolicyRule
rules_of g r = elim (find_role_rules g r.kind r.name) [ none ↦ [] | some rules ↦ rules ]

-- The loop over the rules of `adminReason`.
abbrev pub wildcard_reason : RoleRef → Option (List PolicyRule) → Option String
wildcard_reason rr none = none
wildcard_reason rr (some rules) =
    if any rule_full_wildcard rules
    then some (cat ("wildcard " ∷ rr.kind ∷ " " ∷ rr.name ∷ []))
    else none

unfoldable pub admin_reason : Graph → RoleRef → Option String
admin_reason g rr =
    if is_cluster_admin_ref rr
    then some "cluster-admin"
    else wildcard_reason rr (find_role_rules g rr.kind rr.name)

-- The local function `check` of KG-011.
unfoldable pub check_binding : Graph → Resource → RoleRef → List Subject → List Finding
check_binding g r rr subs =
    if has_priv_subject subs
    then elim (admin_reason g rr) [
      | none ↦ []
      | some reason ↦ finding cluster_admin_binding_meta (ref r) (ev "roleRef" reason) ∷ []
    ]
    else []

unfoldable pub cluster_admin_binding_run : Graph → List Finding
unfolding flat_map
cluster_admin_binding_run g =
    flat_map (λ b. check_binding g b.resource b.role_ref b.subjects) g.cluster_role_bindings
    ++ flat_map (λ b. check_binding g b.resource b.role_ref b.subjects) g.role_bindings

-- The loop over all roles, with one finding for a role that has a rule of the kind looked for.
unfoldable pub per_role : (PolicyRule → Bool) → Meta → String → String → Graph → List Finding
unfolding flat_map
per_role test m path value g =
    flat_map (λ r. if any test (rules_of g r) then finding m (ref r) (ev path value) ∷ [] else [])
      (all_roles g)

unfoldable pub wildcard_rbac_run : Graph → List Finding
unfolding per_role
wildcard_rbac_run =
    per_role rule_any_wildcard wildcard_rbac_meta "rules[].verbs|resources|apiGroups" "*"

unfoldable pub secrets_access_run : Graph → List Finding
unfolding per_role
secrets_access_run =
    per_role rule_grants_secrets secrets_access_meta "rules[]" "get/list/watch on secrets"

unfoldable pub pod_create_run : Graph → List Finding
unfolding per_role
pod_create_run = per_role rule_grants_pod_create pod_create_meta "rules[]" "create pods / pods exec"
