-- ===== src/Graph/Build.antt =====
-- `Build` of internal/graph/graph.go: one pass over the resources, then the sorted namespaces.
pub mod Typed
use kubeguard.Prelude.{
  String, List, [], ◌∷◌, ◌++◌, Option, none, some, ◌==◌, if◌then◌else◌, MapRange, range_sorted,
  set_add,
}
use kubeguard.Model.{Resource, Workload}
use kubeguard.Graph.{Graph}
use kubeguard.Graph.Decode.{Decoder}
use kubeguard.Graph.Normalize.{
  is_workload_kind, to_workload, to_service_account, to_rules, to_binding, to_service,
  to_network_policy,
}

-- The variables of the loop: the graph so far and the keys of `nsSet`.
pub record Building : Type 0 where
  pub graph : Graph
  pub ns_set : List String

abbrev pub start : List Resource → Building
start resources = record {
  graph = record {
    resources = resources;
    workloads = [];
    service_accounts = [];
    roles = [];
    cluster_roles = [];
    role_bindings = [];
    cluster_role_bindings = [];
    services = [];
    network_policies = [];
    namespaces = [];
  };
  ns_set = [];
}

-- `if w, ok := toWorkload(r); ok { append }`
abbrev append_some : List Workload → Option Workload → List Workload
append_some ws none = ws
append_some ws (some w) = ws ++ w ∷ []

module _ (d : Decoder) where
  -- The `switch` on the kind.
  unfoldable pub add_typed : Graph → Resource → Graph
  add_typed g r =
      if is_workload_kind r.kind
      then record g { workloads = append_some g.workloads (to_workload d r) }
      else if r.kind == "ServiceAccount"
      then record g { service_accounts = g.service_accounts ++ to_service_account d r ∷ [] }
      else if r.kind == "Role"
      then record g { roles = g.roles ++ (record { resource = r; rules = to_rules d r }) ∷ [] }
      else if r.kind == "ClusterRole"
      then record g {
        cluster_roles = g.cluster_roles ++ (record { resource = r; rules = to_rules d r }) ∷ [];
      }
      else if r.kind == "RoleBinding"
      then record g {
        role_bindings =
            g.role_bindings
            ++ (record {
              resource = r;
              role_ref = (to_binding d r).0;
              subjects = (to_binding d r).1;
            })
              ∷ [];
      }
      else if r.kind == "ClusterRoleBinding"
      then record g {
        cluster_role_bindings =
            g.cluster_role_bindings
            ++ (record {
              resource = r;
              role_ref = (to_binding d r).0;
              subjects = (to_binding d r).1;
            })
              ∷ [];
      }
      else if r.kind == "Service"
      then record g { services = g.services ++ to_service d r ∷ [] }
      else if r.kind == "NetworkPolicy"
      then record g { network_policies = g.network_policies ++ to_network_policy d r ∷ [] }
      else g

  -- The keys that a resource adds to `nsSet`.
  unfoldable pub add_namespaces : List String → Resource → List String
  unfolding set_add
  add_namespaces keys r =
      let own = (if r.namespace == "" then keys else set_add r.namespace keys) in
      if r.kind == "Namespace" then set_add r.name own else own

  unfoldable pub add_resource : Building → Resource → Building
  unfolding add_typed add_namespaces
  add_resource b r = record { graph = add_typed b.graph r; ns_set = add_namespaces b.ns_set r }

  unfoldable pub add_all : Building → List Resource → Building
  unfolding add_resource
  add_all b [] = b
  add_all b (r ∷ rs) = add_all (add_resource b r) rs

  unfoldable pub build : MapRange → List Resource → Graph
  unfolding add_all
  build m resources =
      let b = add_all (start resources) resources in
      record (b.graph) { namespaces = range_sorted m b.ns_set }
