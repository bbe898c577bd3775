-- ===== src/Checks/Scan.antt =====
-- `Registry`, `Scan` and `SortFindings` of internal/checks/check.go, and `RunnableIDs`.
use kubeguard.Prelude.{
  String, Bool, List, [], ◌∷◌, map, Option, none, some, ◌==◌, nat_eq, if◌then◌else◌, filter,
  flat_map, cat, MapRange, sort_stable, str_lt, gtb,
}
use kubeguard.Api.{Severity, Finding}
use kubeguard.Graph.{Graph}
use kubeguard.Api.{ResourceRef, rank}
use kubeguard.Checks.Check.{Check}
use kubeguard.Checks.Containers.{
  privileged_meta, privileged_run, run_as_root_meta, run_as_root_run, allow_priv_esc_meta,
  allow_priv_esc_run, dangerous_caps_meta, dangerous_caps_run, read_only_root_fs_meta,
  read_only_root_fs_run, resource_limits_meta, resource_limits_run, mutable_image_meta,
  mutable_image_run, cap_drop_all_meta, cap_drop_all_run, untrusted_registry_meta,
  untrusted_registry_run, seccomp_meta, seccomp_run,
}
use kubeguard.Checks.Pods.{
  host_path_meta, host_path_run, host_network_meta, host_network_run, host_pid_meta, host_pid_run,
  host_ipc_meta, host_ipc_run, automount_token_meta, automount_token_run, default_sa_meta,
  default_sa_run,
}
use kubeguard.Checks.RbacChecks.{
  cluster_admin_binding_meta, cluster_admin_binding_run, wildcard_rbac_meta, wildcard_rbac_run,
  secrets_access_meta, secrets_access_run, pod_create_meta, pod_create_run,
}
use kubeguard.Checks.NetworkChecks.{
  network_policy_meta, network_policy_run, exposure_meta, exposure_run,
}
use kubeguard.Checks.Profile.{Profile, includes}

-- All built-in checks, in id order.
unfoldable pub registry : MapRange → List Check
registry m =
    (record { meta = privileged_meta; run = privileged_run })
    ∷ (record { meta = host_path_meta; run = host_path_run })
    ∷ (record { meta = host_network_meta; run = host_network_run })
    ∷ (record { meta = host_pid_meta; run = host_pid_run })
    ∷ (record { meta = host_ipc_meta; run = host_ipc_run })
    ∷ (record { meta = run_as_root_meta; run = run_as_root_run })
    ∷ (record { meta = allow_priv_esc_meta; run = allow_priv_esc_run })
    ∷ (record { meta = dangerous_caps_meta; run = dangerous_caps_run })
    ∷ (record { meta = read_only_root_fs_meta; run = read_only_root_fs_run })
    ∷ (record { meta = resource_limits_meta; run = resource_limits_run })
    ∷ (record { meta = cluster_admin_binding_meta; run = cluster_admin_binding_run })
    ∷ (record { meta = wildcard_rbac_meta; run = wildcard_rbac_run })
    ∷ (record { meta = secrets_access_meta; run = secrets_access_run })
    ∷ (record { meta = pod_create_meta; run = pod_create_run })
    ∷ (record { meta = automount_token_meta; run = automount_token_run })
    ∷ (record { meta = default_sa_meta; run = default_sa_run })
    ∷ (record { meta = network_policy_meta; run = network_policy_run m })
    ∷ (record { meta = exposure_meta; run = exposure_run })
    ∷ (record { meta = mutable_image_meta; run = mutable_image_run })
    ∷ (record { meta = seccomp_meta; run = seccomp_run })
    ∷ (record { meta = cap_drop_all_meta; run = cap_drop_all_run })
    ∷ (record { meta = untrusted_registry_meta; run = untrusted_registry_run })
    ∷ []

unfoldable pub lookup_severity : String → List (String × Severity) → Option Severity
lookup_severity k [] = none
lookup_severity k ((j, v) ∷ m) = if j == k then some v else lookup_severity k m

-- `if ov, ok := p.SeverityOverride[id]; ok { f.Severity = ov }`
unfoldable pub override : Profile → String → Finding → Finding
override p id f = elim (lookup_severity id p.severity_override) [
  | none ↦ f
  | some ov ↦ record f { severity = ov }
]

-- One round of the loop of `Scan`.
unfoldable pub run_check : Graph → Profile → Check → List Finding
run_check g p c = if includes p c.meta.id then map (override p c.meta.id) (c.run g) else []

unfoldable pub resource_key : ResourceRef → String
resource_key r = cat (r.namespace ∷ "/" ∷ r.kind ∷ "/" ∷ r.name ∷ [])

-- The `less` of `SortFindings`.
abbrev pub finding_less : Finding → Finding → Bool
finding_less a b =
    if nat_eq (rank a.severity) (rank b.severity)
    then (if a.category == b.category
        then (if a.id == b.id
            then str_lt (resource_key a.resource) (resource_key b.resource)
            else str_lt a.id b.id)
        else str_lt a.category b.category)
    else gtb (rank a.severity) (rank b.severity)

unfoldable pub sort_findings : List Finding → List Finding
sort_findings = sort_stable finding_less

-- The findings of `Scan` before they are sorted.
unfoldable pub scan_unsorted : MapRange → Graph → Profile → List Finding
scan_unsorted m g p = flat_map (run_check g p) (registry m)

unfoldable pub scan : MapRange → Graph → Profile → List Finding
scan m g p = sort_findings (scan_unsorted m g p)

-- `RunnableIDs`: the ids in the set, in registry order.
unfoldable pub runnable_ids : MapRange → Profile → List String
unfolding filter
runnable_ids m p = map (λ c. c.meta.id) (filter (λ c. includes p c.meta.id) (registry m))
