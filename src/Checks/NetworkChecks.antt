-- ===== src/Checks/NetworkChecks.antt =====
-- internal/checks/network_checks.go and internal/checks/exposure_checks.go.
use kubeguard.Prelude.{
  String, Bool, true, not, ◌&&◌, ◌||◌, List, [], ◌∷◌, ◌==◌, if◌then◌else◌, any, flat_map, MapRange,
  range_sorted, set_add,
}
use kubeguard.Api.{Severity, Capability, Finding}
use kubeguard.Model.{Workload, Service}
use kubeguard.Graph.{Graph}
use kubeguard.Checks.Check.{
  Meta, finding, ref, ns_ref, ev, cis, nsa, attack, cat_network, cat_exposure,
}
use kubeguard.Graph.Resolve.{workloads_for_service, has_default_deny}
use kubeguard.Graph.Rbac.{sa_is_cluster_admin}

abbrev pub network_policy_meta : Meta
network_policy_meta = record {
  id = "KG-017";
  title = "Namespace has no default-deny NetworkPolicy";
  severity = Severity.medium;
  category = cat_network;
  grants = Capability.lateral_movement ∷ [];
  refs = cis "5.3.2" ∷ nsa "Network separation" ∷ [];
  remediation =
      "Apply a default-deny NetworkPolicy (empty podSelector, Ingress+Egress) and allow only required flows.";
}

abbrev pub exposure_meta : Meta
exposure_meta = record {
  id = "KG-018";
  title = "Service exposed externally";
  severity = Severity.medium;
  category = cat_exposure;
  grants = Capability.internet_ingress ∷ [];
  refs = nsa "Network separation" ∷ attack "T1190" ∷ [];
  remediation =
      "Avoid direct LoadBalancer/NodePort exposure; front workloads with an ingress + WAF and restrict source ranges.";
}

-- The keys of `withWorkloads`.
unfoldable pub namespaces_with_workloads : List String → List Workload → List String
unfolding set_add
namespaces_with_workloads keys [] = keys
namespaces_with_workloads keys (w ∷ ws) =
    namespaces_with_workloads (if w.namespace == "" then keys else set_add w.namespace keys) ws

unfoldable pub network_policy_run : MapRange → Graph → List Finding
unfolding flat_map
network_policy_run m g =
    flat_map
      (λ ns.
        if has_default_deny g ns
        then []
        else finding network_policy_meta (ns_ref ns)
            (ev "networkpolicies" "no default-deny in namespace")
          ∷ [])
      (range_sorted m (namespaces_with_workloads [] g.workloads))

unfoldable pub workload_dangerous : Graph → Workload → Bool
unfolding any
workload_dangerous g w =
    if any (λ c. c.privileged) w.pod_spec.containers
    then true
    else if any (λ v. not (v.host_path == "")) w.pod_spec.volumes
    then true
    else sa_is_cluster_admin g w.namespace w.service_account_name

unfoldable pub fronts_dangerous_workload : Graph → Service → Bool
unfolding any
fronts_dangerous_workload g svc = any (workload_dangerous g) (workloads_for_service g svc)

abbrev pub is_exposed_type : String → Bool
is_exposed_type t = t == "LoadBalancer" || t == "NodePort"

unfoldable pub exposure_finding : Graph → Service → Finding
exposure_finding g svc =
    let f = finding exposure_meta (ref svc.resource) (ev "spec.type" svc.type) in
    if svc.type == "LoadBalancer" && fronts_dangerous_workload g svc
    then record f { severity = Severity.high }
    else f

unfoldable pub exposure_run : Graph → List Finding
unfolding flat_map exposure_finding
exposure_run g =
    flat_map (λ svc. if is_exposed_type svc.type then exposure_finding g svc ∷ [] else [])
      g.services
