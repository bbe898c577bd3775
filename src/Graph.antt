-- ===== src/Graph.antt =====
-- internal/graph/graph.go: the inventory of loaded resources that the engines query.
pub mod Decode
pub mod Normalize
pub mod Build
pub mod Resolve
pub mod Rbac
pub mod Coverage
use kubeguard.Prelude.{String, List}
use kubeguard.Model.{
  Resource, Workload, ServiceAccount, Role, ClusterRole, RoleBinding, ClusterRoleBinding, Service,
  NetworkPolicy,
}

pub record Graph : Type 0 where
  pub resources : List Resource
  pub workloads : List Workload
  pub service_accounts : List ServiceAccount
  pub roles : List Role
  pub cluster_roles : List ClusterRole
  pub role_bindings : List RoleBinding
  pub cluster_role_bindings : List ClusterRoleBinding
  pub services : List Service
  pub network_policies : List NetworkPolicy
  pub namespaces : List String
