-- ===== src/Checks/Check.antt =====
-- internal/checks/check.go: the metadata of a check and the findings that it makes.
use kubeguard.Prelude.{String, List, [], ◌∷◌, ◌==◌, if◌then◌else◌, cat}
use kubeguard.Api.{Severity, Capability, ResourceRef, Evidence, ControlRef, Finding}
use kubeguard.Model.{Resource, ContainerView}
use kubeguard.Graph.{Graph}

abbrev pub cat_workload : String
cat_workload = "workload-hardening"

abbrev pub cat_host_access : String
cat_host_access = "host-access"

abbrev pub cat_rbac : String
cat_rbac = "rbac"

abbrev pub cat_network : String
cat_network = "network"

abbrev pub cat_exposure : String
cat_exposure = "exposure"

abbrev pub cat_supply_chain : String
cat_supply_chain = "supply-chain"

pub record Meta : Type 0 where
  pub id : String
  pub title : String
  pub severity : Severity
  pub category : String
  pub grants : List Capability
  pub refs : List ControlRef
  pub remediation : String

-- The interface `Check`: `meta` and `run` of one value.
pub record Check : Type 0 where
  pub meta : Meta
  pub run : Graph → List Finding

unfoldable pub lookup_text : String → List (String × String) → String
lookup_text k [] = ""
lookup_text k ((j, v) ∷ m) = if j == k then v else lookup_text k m

abbrev pub remediation_snippets : List (String × String)
remediation_snippets =
    ("KG-001", "securityContext:\n  privileged: false")
    ∷ ("KG-002", "# remove the hostPath volume; use a CSI or projected volume instead")
    ∷ ("KG-003", "spec:\n  hostNetwork: false")
    ∷ ("KG-004", "spec:\n  hostPID: false")
    ∷ ("KG-005", "spec:\n  hostIPC: false")
    ∷ ("KG-006", "securityContext:\n  runAsNonRoot: true\n  runAsUser: 1000")
    ∷ ("KG-007", "securityContext:\n  allowPrivilegeEscalation: false")
    ∷ ("KG-008", "securityContext:\n  capabilities:\n    drop: [\"ALL\"]")
    ∷ ("KG-009", "securityContext:\n  readOnlyRootFilesystem: true")
    ∷ ("KG-010", "resources:\n  limits:\n    cpu: \"500m\"\n    memory: \"256Mi\"")
    ∷ ("KG-011", "# bind a least-privilege Role, not cluster-admin or a wildcard ClusterRole")
    ∷ ("KG-012", "# replace wildcard rules with explicit apiGroups/resources/verbs")
    ∷ ("KG-013", "# remove get/list/watch on secrets; scope via resourceNames if required")
    ∷ ("KG-014", "# remove create on pods and access to pods/exec and pods/attach")
    ∷ ("KG-015", "spec:\n  automountServiceAccountToken: false")
    ∷ ("KG-016", "spec:\n  serviceAccountName: <dedicated-service-account>")
    ∷ ("KG-017", "# apply a default-deny NetworkPolicy (see `kubeguard harden`)")
    ∷ ("KG-018", "spec:\n  type: ClusterIP   # front with an ingress + WAF instead")
    ∷ ("KG-019", "image: <repo>@sha256:<digest>   # pin by digest")
    ∷ ("KG-020", "securityContext:\n  seccompProfile:\n    type: RuntimeDefault")
    ∷ []

-- `Meta.finding`
unfoldable pub finding : Meta → ResourceRef → List Evidence → Finding
finding m ref evidence = record {
  id = m.id;
  title = m.title;
  severity = m.severity;
  category = m.category;
  resource = ref;
  evidence = evidence;
  remediation = record { summary = m.remediation; snippet = lookup_text m.id remediation_snippets };
  grants = m.grants;
  refs = m.refs;
}

unfoldable pub ref : Resource → ResourceRef
ref r = record { kind = r.kind; namespace = r.namespace; name = r.name }

unfoldable pub ns_ref : String → ResourceRef
ns_ref ns = record { kind = "Namespace"; namespace = ""; name = ns }

-- `ev`, as the one piece of evidence of a finding.
abbrev pub ev : String → String → List Evidence
ev path value = (record { path = path; value = value }) ∷ []

unfoldable pub cpath : ContainerView → String → String
cpath c field = cat ("spec.containers[" ∷ c.name ∷ "]." ∷ field ∷ [])

abbrev pub cis : String → ControlRef
cis id = record { framework = "CIS"; id = id; title = "" }

abbrev pub nsa : String → ControlRef
nsa title = record { framework = "NSA"; id = "k8s-hardening"; title = title }

abbrev pub attack : String → ControlRef
attack id = record { framework = "ATT&CK"; id = id; title = "" }
