-- ===== src/Checks/Containers.antt =====
-- The container checks of internal/checks/workload_checks.go.
use kubeguard.Prelude.{
  String, Bool, true, not, List, [], ◌∷◌, Option, none, some, ◌==◌, if◌then◌else◌, flat_map,
}
use kubeguard.Api.{Severity, Capability, Finding}
use kubeguard.Model.{Workload, ContainerView, has_limits}
use kubeguard.Graph.{Graph}
use kubeguard.Checks.Check.{
  Meta, finding, ref, ev, cpath, cis, nsa, attack, cat_workload, cat_host_access, cat_supply_chain,
}
use kubeguard.Checks.Predicates.{
  effective_seccomp, runs_as_root, is_dangerous_cap, is_mutable_image, drops_all, implicit_registry,
}

abbrev pub privileged_meta : Meta
privileged_meta = record {
  id = "KG-001";
  title = "Privileged container";
  severity = Severity.critical;
  category = cat_host_access;
  grants = Capability.container_escape ∷ Capability.node_access ∷ [];
  refs = cis "5.2.1" ∷ nsa "Pod security" ∷ attack "T1611" ∷ [];
  remediation =
      "Remove securityContext.privileged or set it to false; grant only the specific capabilities the workload needs.";
}

abbrev pub run_as_root_meta : Meta
run_as_root_meta = record {
  id = "KG-006";
  title = "Container may run as root";
  severity = Severity.medium;
  category = cat_workload;
  grants = Capability.root_in_container ∷ [];
  refs = cis "5.2.6" ∷ nsa "Pod security" ∷ [];
  remediation = "Set runAsNonRoot: true and a non-zero runAsUser in the security context.";
}

abbrev pub allow_priv_esc_meta : Meta
allow_priv_esc_meta = record {
  id = "KG-007";
  title = "Privilege escalation not disabled";
  severity = Severity.medium;
  category = cat_workload;
  grants = Capability.priv_esc ∷ [];
  refs = cis "5.2.5" ∷ nsa "Pod security" ∷ [];
  remediation = "Set allowPrivilegeEscalation: false in the container security context.";
}

abbrev pub dangerous_caps_meta : Meta
dangerous_caps_meta = record {
  id = "KG-008";
  title = "Dangerous Linux capability added";
  severity = Severity.high;
  category = cat_workload;
  grants = Capability.container_escape ∷ [];
  refs = cis "5.2.8" ∷ nsa "Pod security" ∷ attack "T1611" ∷ [];
  remediation = "Drop ALL capabilities and add back only those strictly required.";
}

abbrev pub read_only_root_fs_meta : Meta
read_only_root_fs_meta = record {
  id = "KG-009";
  title = "Root filesystem is writable";
  severity = Severity.low;
  category = cat_workload;
  grants = [];
  refs = cis "5.2.12" ∷ nsa "Pod security" ∷ [];
  remediation = "Set readOnlyRootFilesystem: true and mount writable paths as volumes.";
}

abbrev pub resource_limits_meta : Meta
resource_limits_meta = record {
  id = "KG-010";
  title = "Missing CPU/memory limits";
  severity = Severity.low;
  category = cat_workload;
  grants = Capability.resource_exhaustion ∷ [];
  refs = cis "5.7.3" ∷ nsa "Resource limits" ∷ [];
  remediation = "Set resources.limits.cpu and resources.limits.memory.";
}

abbrev pub mutable_image_meta : Meta
mutable_image_meta = record {
  id = "KG-019";
  title = "Image uses a mutable tag";
  severity = Severity.low;
  category = cat_supply_chain;
  grants = [];
  refs = cis "5.5.1" ∷ nsa "Supply chain" ∷ [];
  remediation = "Pin images by digest (image@sha256:...) or an immutable, versioned tag.";
}

abbrev pub cap_drop_all_meta : Meta
cap_drop_all_meta = record {
  id = "KG-021";
  title = "Container does not drop all capabilities";
  severity = Severity.medium;
  category = cat_workload;
  grants = [];
  refs =
      cis "5.2.9"
      ∷ nsa "Pod security"
      ∷ (record { framework = "PSA"; id = "restricted"; title = "" })
      ∷ [];
  remediation =
      "Set securityContext.capabilities.drop: [\"ALL\"] and add back only the capabilities the workload strictly requires (Pod Security \"restricted\").";
}

abbrev pub untrusted_registry_meta : Meta
untrusted_registry_meta = record {
  id = "KG-022";
  title = "Image pulled from an implicit or untrusted registry";
  severity = Severity.low;
  category = cat_supply_chain;
  grants = [];
  refs = nsa "Supply chain" ∷ [];
  remediation =
      "Pull images from an explicit, trusted registry (e.g. registry.example.com/…) rather than an implicit Docker Hub reference, and enforce it with an admission policy.";
}

abbrev pub seccomp_meta : Meta
seccomp_meta = record {
  id = "KG-020";
  title = "Seccomp profile is not RuntimeDefault";
  severity = Severity.low;
  category = cat_workload;
  grants = [];
  refs = cis "5.7.2" ∷ nsa "Pod security" ∷ [];
  remediation = "Set seccompProfile.type: RuntimeDefault on the pod or container.";
}

-- `for w { for c { … } }`
unfoldable pub per_container : (Workload → ContainerView → List Finding) → Graph → List Finding
unfolding flat_map
per_container f g = flat_map (λ w. flat_map (f w) w.pod_spec.containers) g.workloads

-- One finding on the workload, if the test holds.
abbrev pub report_if : Bool → Meta → Workload → String → String → List Finding
report_if b m w path value = if b then finding m (ref w.resource) (ev path value) ∷ [] else []

unfoldable pub privileged_run : Graph → List Finding
unfolding per_container
privileged_run =
    per_container
      λ w c. report_if c.privileged privileged_meta w (cpath c "securityContext.privileged") "true"

unfoldable pub run_as_root_run : Graph → List Finding
unfolding per_container
run_as_root_run = per_container λ w c.
    report_if (runs_as_root c w.pod_spec) run_as_root_meta w
      (cpath c "securityContext.runAsNonRoot") "not enforced"

-- `p == nil || *p`
abbrev pub nil_or_true : Option Bool → Bool
nil_or_true none = true
nil_or_true (some b) = b

-- `p == nil || !*p`
abbrev pub nil_or_false : Option Bool → Bool
nil_or_false none = true
nil_or_false (some b) = not b

unfoldable pub allow_priv_esc_run : Graph → List Finding
unfolding per_container
allow_priv_esc_run = per_container λ w c.
    report_if (nil_or_true c.allow_priv_esc) allow_priv_esc_meta w
      (cpath c "securityContext.allowPrivilegeEscalation") "not set (defaults true)"

unfoldable pub dangerous_caps_run : Graph → List Finding
unfolding per_container flat_map
dangerous_caps_run = per_container λ w c.
    flat_map
      (λ name.
        report_if (is_dangerous_cap name) dangerous_caps_meta w
          (cpath c "securityContext.capabilities.add") name)
      c.caps_add

unfoldable pub read_only_root_fs_run : Graph → List Finding
unfolding per_container
read_only_root_fs_run = per_container λ w c.
    report_if (nil_or_false c.read_only_root_fs) read_only_root_fs_meta w
      (cpath c "securityContext.readOnlyRootFilesystem") "not true"

unfoldable pub resource_limits_run : Graph → List Finding
unfolding per_container
resource_limits_run = per_container λ w c.
    report_if (not (has_limits c.limits)) resource_limits_meta w (cpath c "resources.limits")
      "missing cpu/memory"

unfoldable pub mutable_image_run : Graph → List Finding
unfolding per_container
mutable_image_run =
    per_container
      λ w c. report_if (is_mutable_image c.image) mutable_image_meta w (cpath c "image") c.image

unfoldable pub cap_drop_all_run : Graph → List Finding
unfolding per_container
cap_drop_all_run = per_container λ w c.
    report_if (not (drops_all c.caps_drop)) cap_drop_all_meta w
      (cpath c "securityContext.capabilities.drop") "does not drop ALL"

unfoldable pub untrusted_registry_run : Graph → List Finding
unfolding per_container
untrusted_registry_run =
    per_container λ w c.
      report_if (implicit_registry c.image) untrusted_registry_meta w (cpath c "image") c.image

unfoldable pub seccomp_run : Graph → List Finding
unfolding per_container
seccomp_run = per_container λ w c.
    report_if (not (effective_seccomp c w.pod_spec == "RuntimeDefault")) seccomp_meta w
      (cpath c "securityContext.seccompProfile.type") "not RuntimeDefault"
