-- ===== src/Checks/Pods.antt =====
-- The pod and workload checks of internal/checks/workload_checks.go.
use kubeguard.Prelude.{
  Bool, true, List, [], ◌∷◌, Option, none, some, ◌==◌, if◌then◌else◌, flat_map, cat,
}
use kubeguard.Api.{Severity, Capability, Finding}
use kubeguard.Model.{Workload, VolumeView}
use kubeguard.Graph.{Graph}
use kubeguard.Checks.Check.{Meta, finding, ref, ev, cis, nsa, attack, cat_host_access, cat_rbac}
use kubeguard.Graph.Resolve.{service_account_by_name}
use kubeguard.Checks.Predicates.{is_sensitive_host_path}
use kubeguard.Checks.Containers.{report_if}

abbrev pub host_path_meta : Meta
host_path_meta = record {
  id = "KG-002";
  title = "Sensitive hostPath mount";
  severity = Severity.critical;
  category = cat_host_access;
  grants = Capability.host_filesystem_access ∷ Capability.container_escape ∷ [];
  refs = cis "5.2.10" ∷ nsa "Pod security" ∷ attack "T1611" ∷ [];
  remediation =
      "Remove the hostPath volume; use a projected/ephemeral volume or a CSI driver instead of mounting host paths or runtime sockets.";
}

abbrev pub host_network_meta : Meta
host_network_meta = record {
  id = "KG-003";
  title = "hostNetwork enabled";
  severity = Severity.high;
  category = cat_host_access;
  grants = Capability.host_network_access ∷ [];
  refs = cis "5.2.4" ∷ nsa "Pod security" ∷ [];
  remediation = "Set hostNetwork: false; expose the workload via a Service instead.";
}

abbrev pub host_pid_meta : Meta
host_pid_meta = record {
  id = "KG-004";
  title = "hostPID enabled";
  severity = Severity.high;
  category = cat_host_access;
  grants = Capability.host_process_access ∷ [];
  refs = cis "5.2.3" ∷ nsa "Pod security" ∷ [];
  remediation = "Set hostPID: false.";
}

abbrev pub host_ipc_meta : Meta
host_ipc_meta = record {
  id = "KG-005";
  title = "hostIPC enabled";
  severity = Severity.medium;
  category = cat_host_access;
  grants = Capability.host_ipc_access ∷ [];
  refs = cis "5.2.3" ∷ nsa "Pod security" ∷ [];
  remediation = "Set hostIPC: false.";
}

abbrev pub automount_token_meta : Meta
automount_token_meta = record {
  id = "KG-015";
  title = "ServiceAccount token auto-mounted";
  severity = Severity.medium;
  category = cat_rbac;
  grants = Capability.service_account_token ∷ [];
  refs = cis "5.1.6" ∷ nsa "RBAC" ∷ [];
  remediation =
      "Set automountServiceAccountToken: false on the pod or ServiceAccount when the token is not needed.";
}

abbrev pub default_sa_meta : Meta
default_sa_meta = record {
  id = "KG-016";
  title = "Workload uses the default ServiceAccount";
  severity = Severity.low;
  category = cat_rbac;
  grants = [];
  refs = cis "5.1.5" ∷ nsa "RBAC" ∷ [];
  remediation = "Assign a dedicated, least-privilege ServiceAccount instead of default.";
}

-- The finding on one volume: high instead of critical where the path is not sensitive.
unfoldable pub host_path_finding : Workload → VolumeView → Finding
unfolding is_sensitive_host_path
host_path_finding w v =
    let f =
      finding host_path_meta (ref w.resource)
        (ev (cat ("spec.volumes[" ∷ v.name ∷ "].hostPath.path" ∷ [])) v.host_path) in
    if is_sensitive_host_path v.host_path then f else record f { severity = Severity.high }

unfoldable pub host_path_run : Graph → List Finding
unfolding flat_map host_path_finding
host_path_run g =
    flat_map
      (λ w.
        flat_map (λ v. if v.host_path == "" then [] else host_path_finding w v ∷ [])
          w.pod_spec.volumes)
      g.workloads

unfoldable pub host_network_run : Graph → List Finding
unfolding flat_map
host_network_run g =
    flat_map (λ w. report_if w.pod_spec.host_network host_network_meta w "spec.hostNetwork" "true")
      g.workloads

unfoldable pub host_pid_run : Graph → List Finding
unfolding flat_map
host_pid_run g =
    flat_map (λ w. report_if w.pod_spec.host_pid host_pid_meta w "spec.hostPID" "true") g.workloads

unfoldable pub host_ipc_run : Graph → List Finding
unfolding flat_map
host_ipc_run g =
    flat_map (λ w. report_if w.pod_spec.host_ipc host_ipc_meta w "spec.hostIPC" "true") g.workloads

-- The setting of the account, if it is loaded and has one; true otherwise.
abbrev pub account_automount : Option Bool → Bool
account_automount none = true
account_automount (some b) = b

unfoldable pub automount_effective : Graph → Workload → Bool
automount_effective g w = elim w.pod_spec.automount_sa_token [
  | some b ↦ b
  | none ↦ elim (service_account_by_name g w.namespace w.service_account_name) [
    | none ↦ true
    | some sa ↦ account_automount sa.automount_token
  ]
]

unfoldable pub automount_token_run : Graph → List Finding
unfolding flat_map
automount_token_run g =
    flat_map
      (λ w.
        report_if (automount_effective g w) automount_token_meta w
          "spec.automountServiceAccountToken" "not disabled")
      g.workloads

unfoldable pub default_sa_run : Graph → List Finding
unfolding flat_map
default_sa_run g =
    flat_map
      (λ w.
        report_if (w.service_account_name == "default") default_sa_meta w "spec.serviceAccountName"
          "default")
      g.workloads
