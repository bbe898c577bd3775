-- ===== src/Attack/Escape.antt =====
-- internal/attack/engine.go: the check ids, the predicates on a workload, and the severities.
use kubeguard.Prelude.{
  String, Bool, true, false, not, ◌&&◌, ◌||◌, List, [], ◌∷◌, Option, none, some, ◌==◌,
  if◌then◌else◌, any, find, flat_map, cat, upper_is,
}
use kubeguard.Api.{Severity, Capability}
use kubeguard.Model.{Workload, Service}
use kubeguard.Graph.{Graph}
use kubeguard.Graph.Resolve.{workloads_for_service}
use kubeguard.Checks.NetworkChecks.{is_exposed_type}

abbrev pub kg_privileged : String
kg_privileged = "KG-001"

abbrev pub kg_host_path : String
kg_host_path = "KG-002"

abbrev pub kg_dangerous_cap : String
kg_dangerous_cap = "KG-008"

abbrev pub kg_cluster_admin : String
kg_cluster_admin = "KG-011"

abbrev pub kg_secrets : String
kg_secrets = "KG-013"

abbrev pub kg_pod_create : String
kg_pod_create = "KG-014"

abbrev pub kg_automount : String
kg_automount = "KG-015"

abbrev pub kg_no_net_pol : String
kg_no_net_pol = "KG-017"

abbrev pub kg_exposure : String
kg_exposure = "KG-018"

abbrev pub escape_host_paths : List String
escape_host_paths =
    "/" ∷ "/var/run" ∷ "/var/run/docker.sock" ∷ "/run/docker.sock"
    ∷ "/run/containerd/containerd.sock" ∷ "/var/run/crio/crio.sock" ∷ "/proc" ∷ "/var/lib/kubelet"
    ∷ "/var/lib/docker" ∷ []

abbrev pub escape_caps : List String
escape_caps =
    "ALL" ∷ "SYS_ADMIN" ∷ "SYS_MODULE" ∷ "SYS_RAWIO" ∷ "SYS_PTRACE" ∷ "DAC_READ_SEARCH" ∷ "BPF" ∷ []

-- `escapeCaps[strings.ToUpper(name)]`
unfoldable pub is_escape_cap : String → Bool
unfolding any upper_is
is_escape_cap name = any (upper_is name) escape_caps

-- `v.HostPath != "" && escapeHostPaths[v.HostPath]`
unfoldable pub is_escape_path : String → Bool
unfolding any
is_escape_path path = not (path == "") && any (λ p. p == path) escape_host_paths

unfoldable pub host_path_name : Workload → String
unfolding find
host_path_name w = elim (find (λ v. is_escape_path v.host_path) w.pod_spec.volumes) [
  | none ↦ ""
  | some v ↦ v.host_path
]

unfoldable pub workload_escape : Workload → Bool
unfolding any
workload_escape w =
    any (λ c. c.privileged || any is_escape_cap c.caps_add) w.pod_spec.containers
    || not (host_path_name w == "")

-- The first escape capability, container by container.
unfoldable pub first_escape_cap : Workload → Option String
unfolding find flat_map
first_escape_cap w = find is_escape_cap (flat_map (λ c. c.caps_add) w.pod_spec.containers)

unfoldable pub escape_enabler : Workload → String × String
unfolding any
escape_enabler w =
    if any (λ c. c.privileged) w.pod_spec.containers
    then (kg_privileged, "Privileged container allows breakout from the pod.")
    else elim (first_escape_cap w) [
      | some name ↦
          (kg_dangerous_cap, cat ("Dangerous capability (" ∷ name ∷ ") allows breakout." ∷ []))
      | none ↦ if host_path_name w == "" then (kg_privileged, "Container escape.") else (
        kg_host_path,
        cat ("Sensitive hostPath (" ∷ host_path_name w ∷ ") allows breakout." ∷ []),
      )
    ]

-- `m.Namespace == w.Namespace && m.Name == w.Name && m.Kind == w.Kind`
abbrev pub same_workload : Workload → Workload → Bool
same_workload w m = m.namespace == w.namespace && m.name == w.name && m.kind == w.kind

abbrev pub exposes : Graph → Workload → Service → Bool
exposes g w svc = is_exposed_type svc.type && any (same_workload w) (workloads_for_service g svc)

-- The name of the first service that exposes the workload.
unfoldable pub exposing_service : Graph → Workload → Option String
unfolding find any
exposing_service g w = elim (find (exposes g w) g.services) [
  | none ↦ none
  | some svc ↦ some svc.name
]

unfoldable pub has_foothold : Capability → Bool
has_foothold Capability.container_escape = true
has_foothold Capability.node_access = true
has_foothold Capability.service_account_token = true
has_foothold Capability.secret_read = true
has_foothold Capability.pod_create = true
has_foothold Capability.cluster_admin = true
has_foothold _ = false

-- `footholdInCluster`
unfoldable pub foothold_in_cluster : Capability → Bool
foothold_in_cluster Capability.node_access = true
foothold_in_cluster Capability.container_escape = true
foothold_in_cluster Capability.network_reachable = true
foothold_in_cluster _ = false

unfoldable pub cap_severity : Capability → Severity
cap_severity Capability.cluster_admin = Severity.critical
cap_severity Capability.node_access = Severity.critical
cap_severity Capability.container_escape = Severity.high
cap_severity Capability.host_network_access = Severity.high
cap_severity Capability.host_process_access = Severity.high
cap_severity Capability.secret_read = Severity.high
cap_severity Capability.pod_create = Severity.high
cap_severity Capability.broad_api_access = Severity.high
cap_severity Capability.service_account_token = Severity.medium
cap_severity Capability.lateral_movement = Severity.medium
cap_severity _ = Severity.low
