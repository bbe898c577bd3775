-- ===== src/Examples/Gates.antt =====
-- The theorems on waivers and the webhook at one waiver.
use kubeguard.Prelude.{
  ℕ, String, Bool, true, false, List, [], ◌∷◌, map, Option, none, some, ◌≡◌, ◌≢◌, ◌⊎◌, refl, inl,
  inr, All, Any, In, arith, ◌==◌, if◌then◌else◌,
}
use kubeguard.Api.{Severity, Finding}
use kubeguard.Waiver.{Selector, Entry, match_entry, partition}
use kubeguard.Waiver.Load.{RawEntry, ok, parse, to_raw}
use kubeguard.Waiver.Valid.{IsAcceptable, IsValid, parse-IsValid, parse_total}
use kubeguard.Waiver.Cover.{Covers, match_entry_lem, IsPartition, partition-IsPartition}
use kubeguard.Webhook.{Pod, Config, Verdict, decoded, Request, warning, decide, violations, handle}
use kubeguard.Webhook.Gate.{IsAllowed, IsDenied, Blocks, Waived, decide_lem, handle_fail_closed}
use kubeguard.Model.{Fields}
use kubeguard.Examples.Data.{in_order, found, acceptance, decoder}

abbrev privileged : Finding
privileged = found "KG-001" Severity.critical

abbrev unlimited : Finding
unlimited = found "KG-006" Severity.low

match_entry_lem_example :
    ((e : Entry) × (match_entry (some (acceptance ∷ [])) privileged 7 ≡ some e)
      × In e (acceptance ∷ [])
      × Covers privileged 7 e)
    ⊎ ((match_entry (some (acceptance ∷ [])) privileged 7 ≡ none)
        × All (λ e. ¬ Covers privileged 7 e) (acceptance ∷ []))
match_entry_lem_example = match_entry_lem (some (acceptance ∷ [])) privileged 7

lapsed : match_entry (some (acceptance ∷ [])) privileged 100 ≡ none
unfolding match_entry kubeguard.Prelude.find kubeguard.Waiver.covers
    kubeguard.Waiver.matches_resource kubeguard.Waiver.selects
lapsed = refl

partition-IsPartition_example :
    IsPartition
      (some (acceptance ∷ []))
      7
      (privileged ∷ unlimited ∷ [])
      (partition (some (acceptance ∷ [])) (privileged ∷ unlimited ∷ []) 7)
partition-IsPartition_example =
    partition-IsPartition (some (acceptance ∷ [])) 7 (privileged ∷ unlimited ∷ [])

abbrev clock : String → Option ℕ
clock s = if s == "2030-01-01T00:00:00Z" then some 100 else none

abbrev written : RawEntry
written = to_raw acceptance

acceptance_parsed : parse clock (some (written ∷ [])) ≡ ok (acceptance ∷ [])
unfolding parse kubeguard.Waiver.Load.validate_all kubeguard.Waiver.Load.validate
acceptance_parsed = refl

parse-IsValid_example :
    All (IsValid clock) (acceptance ∷ []) × (map to_raw (acceptance ∷ []) ≡ written ∷ [])
parse-IsValid_example = parse-IsValid clock (written ∷ []) (acceptance ∷ []) acceptance_parsed

written-IsAcceptable : IsAcceptable clock written
written-IsAcceptable = record {
  identified = λ h. cc;
  justified = λ h. cc;
  dated = λ h. cc;
  instant = 100;
  parsed = refl;
}

parse_total_example : (es : List Entry) × (parse clock (some (written ∷ [])) ≡ ok es)
parse_total_example = parse_total clock (written ∷ []) (written-IsAcceptable, tt)

abbrev config : Config
config = record {
  fail_open = false;
  waivers = some (acceptance ∷ (record acceptance { id = "KG-006" }) ∷ []);
}

decide_lem_example :
    ((IsDenied (decide config 7 (privileged ∷ unlimited ∷ []))
        × Any (Blocks config 7) (privileged ∷ unlimited ∷ []))
      ⊎ (IsAllowed (decide config 7 (privileged ∷ unlimited ∷ []))
          × All (Waived config 7) (privileged ∷ unlimited ∷ [])))
    × ((decide config 7 (privileged ∷ unlimited ∷ [])).warnings
        ≡ map warning (partition config.waivers (privileged ∷ unlimited ∷ []) 7).waived)
decide_lem_example = decide_lem config 7 (privileged ∷ unlimited ∷ [])

abbrev pod : Pod
pod = record {
  name = "web";
  generate_name = "";
  namespace = "shop";
  labels = [];
  uid = "";
  encoded = some Fields.end;
}

pod_admitted :
    (handle decoder in_order config 7 (decoded pod)).verdict
    ≡ Verdict.allowed "kubeguard: all violations covered by active waivers"
unfolding kubeguard.Model.reference kubeguard.Model.has_limits kubeguard.Model.is_default_deny
    kubeguard.Webhook.is_deny_check kubeguard.Webhook.set_field kubeguard.Webhook.pod_resource
    kubeguard.Webhook.warning kubeguard.Webhook.split kubeguard.Webhook.respond
    kubeguard.Webhook.decide kubeguard.Webhook.violations kubeguard.Webhook.handle
    kubeguard.Waiver.is_empty kubeguard.Waiver.selects kubeguard.Waiver.matches_resource
    kubeguard.Waiver.covers kubeguard.Waiver.match_entry kubeguard.Waiver.partition
    kubeguard.Checks.Check.lookup_text kubeguard.Checks.Check.finding kubeguard.Checks.Check.ref
    kubeguard.Checks.Check.ns_ref kubeguard.Checks.Check.cpath
    kubeguard.Checks.Predicates.effective_seccomp kubeguard.Checks.Predicates.runs_as_root
    kubeguard.Checks.Predicates.is_sensitive_host_path kubeguard.Checks.Predicates.is_dangerous_cap
    kubeguard.Checks.Predicates.is_mutable_image kubeguard.Checks.Predicates.drops_all
    kubeguard.Checks.Predicates.implicit_registry kubeguard.Checks.Containers.per_container
    kubeguard.Checks.Containers.privileged_run kubeguard.Checks.Containers.run_as_root_run
    kubeguard.Checks.Containers.allow_priv_esc_run kubeguard.Checks.Containers.dangerous_caps_run
    kubeguard.Checks.Containers.read_only_root_fs_run
    kubeguard.Checks.Containers.resource_limits_run kubeguard.Checks.Containers.mutable_image_run
    kubeguard.Checks.Containers.cap_drop_all_run kubeguard.Checks.Containers.untrusted_registry_run
    kubeguard.Checks.Containers.seccomp_run kubeguard.Checks.Pods.host_path_finding
    kubeguard.Checks.Pods.host_path_run kubeguard.Checks.Pods.host_network_run
    kubeguard.Checks.Pods.host_pid_run kubeguard.Checks.Pods.host_ipc_run
    kubeguard.Checks.Pods.automount_effective kubeguard.Checks.Pods.automount_token_run
    kubeguard.Checks.Pods.default_sa_run kubeguard.Checks.RbacChecks.find_role_rules
    kubeguard.Checks.RbacChecks.has_priv_subject kubeguard.Checks.RbacChecks.all_roles
    kubeguard.Checks.RbacChecks.rules_of kubeguard.Checks.RbacChecks.admin_reason
    kubeguard.Checks.RbacChecks.check_binding kubeguard.Checks.RbacChecks.cluster_admin_binding_run
    kubeguard.Checks.RbacChecks.per_role kubeguard.Checks.RbacChecks.wildcard_rbac_run
    kubeguard.Checks.RbacChecks.secrets_access_run kubeguard.Checks.RbacChecks.pod_create_run
    kubeguard.Checks.NetworkChecks.namespaces_with_workloads
    kubeguard.Checks.NetworkChecks.network_policy_run
    kubeguard.Checks.NetworkChecks.workload_dangerous
    kubeguard.Checks.NetworkChecks.fronts_dangerous_workload
    kubeguard.Checks.NetworkChecks.exposure_finding kubeguard.Checks.NetworkChecks.exposure_run
    kubeguard.Checks.Profile.includes kubeguard.Checks.Profile.zeal_default
    kubeguard.Checks.Profile.cis_profile kubeguard.Checks.Profile.profile_by_name
    kubeguard.Checks.Scan.registry kubeguard.Checks.Scan.lookup_severity
    kubeguard.Checks.Scan.override kubeguard.Checks.Scan.run_check
    kubeguard.Checks.Scan.resource_key kubeguard.Checks.Scan.sort_findings
    kubeguard.Checks.Scan.scan_unsorted kubeguard.Checks.Scan.scan
    kubeguard.Checks.Scan.runnable_ids kubeguard.Graph.Normalize.is_workload_kind
    kubeguard.Graph.Normalize.build_container kubeguard.Graph.Normalize.build_containers
    kubeguard.Graph.Normalize.build_pod_spec kubeguard.Graph.Normalize.stringify_port
    kubeguard.Graph.Normalize.to_workload kubeguard.Graph.Normalize.to_service_account
    kubeguard.Graph.Normalize.to_rules kubeguard.Graph.Normalize.to_binding
    kubeguard.Graph.Normalize.to_service kubeguard.Graph.Normalize.to_network_policy
    kubeguard.Graph.Build.add_typed kubeguard.Graph.Build.add_namespaces
    kubeguard.Graph.Build.add_resource kubeguard.Graph.Build.add_all kubeguard.Graph.Build.build
    kubeguard.Graph.Resolve.subjects_include kubeguard.Graph.Resolve.resolve_ref
    kubeguard.Graph.Resolve.granted_roles_for_sa kubeguard.Graph.Resolve.label
    kubeguard.Graph.Resolve.selector_matches kubeguard.Graph.Resolve.workloads_for_service
    kubeguard.Graph.Resolve.service_account_by_name
    kubeguard.Graph.Resolve.network_policies_in_namespace kubeguard.Graph.Resolve.has_default_deny
    kubeguard.Graph.Rbac.has kubeguard.Graph.Rbac.has_any kubeguard.Graph.Rbac.rule_full_wildcard
    kubeguard.Graph.Rbac.rule_any_wildcard kubeguard.Graph.Rbac.rule_grants_secrets
    kubeguard.Graph.Rbac.rule_grants_pod_create kubeguard.Graph.Rbac.sa_rules
    kubeguard.Graph.Rbac.sa_is_cluster_admin kubeguard.Graph.Rbac.sa_can_read_secrets
    kubeguard.Graph.Rbac.sa_can_create_pods kubeguard.Prelude.decimal kubeguard.Prelude.format_int
    kubeguard.Prelude.decimal3 kubeguard.Prelude.cat kubeguard.Prelude.join kubeguard.Prelude.any
    kubeguard.Prelude.all kubeguard.Prelude.filter kubeguard.Prelude.find kubeguard.Prelude.flat_map
    kubeguard.Prelude.sort_stable kubeguard.Prelude.set_add kubeguard.Prelude.sort_strings
    kubeguard.Prelude.range_sorted kubeguard.Prelude.has_prefix kubeguard.Prelude.contains
    kubeguard.Prelude.after_last kubeguard.Prelude.before_first kubeguard.Prelude.upper_is
    kubeguard.Api.rank
pod_admitted = refl

handle_fail_closed_example :
    (p : Pod) × (vs : List Finding) × (decoded pod ≡ decoded p)
    × (violations decoder in_order p ≡ some vs)
    × All (Waived config 7) vs
handle_fail_closed_example =
    handle_fail_closed decoder in_order config 7 (decoded pod) refl (_, pod_admitted)
