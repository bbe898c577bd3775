-- ===== src/Model.antt =====
-- internal/model/types.go: the normalised views of Kubernetes objects. A nil pointer is `none`, and
-- a map from strings to strings is the list of its entries, each key once.
use kubeguard.Prelude.{
  ℕ, String, Bool, false, not, ◌&&◌, ◌||◌, List, [], ◌∷◌, Option, ℤ, ◌==◌, nat_eq, if◌then◌else◌,
  cat, any, nonempty,
}

-- The decoded document behind `Raw map[string]any`.
mutual
  pub data Json : Type 0 where
    null : Json
    boolean : Bool → Json
    -- by its text
    number : String → Json
    text : String → Json
    arr : Items → Json
    obj : Fields → Json

  pub data Items : Type 0 where
    nil : Items
    cons : Json → Items → Items

  pub data Fields : Type 0 where
    end : Fields
    field : String → Json → Fields → Fields

abbrev pub StringMap : Type 0
StringMap = List (String × String)

pub record Resource : Type 0 where
  pub api_version : String
  pub kind : String
  pub namespace : String
  pub name : String
  pub uid : String
  pub labels : StringMap
  pub annotations : StringMap
  pub raw : Json

-- `Resource.Ref`
unfoldable pub reference : Resource → String
unfolding cat
reference r =
    let ns = if r.namespace == "" then "_cluster_" else r.namespace in
    cat (ns ∷ "/" ∷ r.kind ∷ "/" ∷ r.name ∷ [])

pub record VolumeView : Type 0 where
  pub name : String
  pub host_path : String
  pub host_path_type : String

pub record ResourceLimitsView : Type 0 where
  pub cpu : String
  pub memory : String

unfoldable pub has_limits : ResourceLimitsView → Bool
has_limits l = not (l.cpu == "") && not (l.memory == "")

pub record SecurityContextView : Type 0 where
  pub run_as_user : Option ℤ
  pub run_as_non_root : Option Bool
  pub seccomp_profile : String

pub record ContainerView : Type 0 where
  pub name : String
  pub image : String
  pub role : String
  pub privileged : Bool
  pub allow_priv_esc : Option Bool
  pub run_as_user : Option ℤ
  pub run_as_non_root : Option Bool
  pub read_only_root_fs : Option Bool
  pub caps_add : List String
  pub caps_drop : List String
  pub seccomp_profile : String
  pub env_secret_keys : List String
  pub limits : ResourceLimitsView

pub record PodSpecView : Type 0 where
  pub host_network : Bool
  pub host_pid : Bool
  pub host_ipc : Bool
  pub automount_sa_token : Option Bool
  pub volumes : List VolumeView
  pub containers : List ContainerView
  pub security_context : SecurityContextView

pub record Workload : Type 0 where
  pub resource : Resource
  pub open resource use *
  pub replicas : ℤ
  pub service_account_name : String
  pub pod_labels : StringMap
  pub pod_spec : PodSpecView

pub record ServiceAccount : Type 0 where
  pub resource : Resource
  pub open resource use *
  pub automount_token : Option Bool

pub record PolicyRule : Type 0 where
  pub api_groups : List String
  pub resources : List String
  pub verbs : List String
  pub resource_names : List String

pub record Role : Type 0 where
  pub resource : Resource
  pub open resource use *
  pub rules : List PolicyRule

pub record ClusterRole : Type 0 where
  pub resource : Resource
  pub open resource use *
  pub rules : List PolicyRule

pub record RoleRef : Type 0 where
  pub kind : String
  pub name : String
  pub api_group : String

pub record Subject : Type 0 where
  pub kind : String
  pub name : String
  pub namespace : String

pub record RoleBinding : Type 0 where
  pub resource : Resource
  pub open resource use *
  pub role_ref : RoleRef
  pub subjects : List Subject

pub record ClusterRoleBinding : Type 0 where
  pub resource : Resource
  pub open resource use *
  pub role_ref : RoleRef
  pub subjects : List Subject

pub record ServicePort : Type 0 where
  pub port : ℤ
  pub target_port : String
  pub protocol : String
  pub node_port : ℤ

pub record Service : Type 0 where
  pub resource : Resource
  pub open resource use *
  pub type : String
  pub selector : StringMap
  pub ports : List ServicePort

pub record NetworkPolicy : Type 0 where
  pub resource : Resource
  pub open resource use *
  pub pod_selector : StringMap
  pub policy_types : List String
  pub ingress_rule_count : ℕ
  pub egress_rule_count : ℕ

-- One round of the loop of `IsDefaultDeny`.
abbrev denies_type : NetworkPolicy → String → Bool
denies_type n t =
    t == "Ingress" && nat_eq n.ingress_rule_count 0 || t == "Egress" && nat_eq n.egress_rule_count 0

unfoldable pub is_default_deny : NetworkPolicy → Bool
unfolding any
is_default_deny n = if nonempty n.pod_selector then false else any (denies_type n) n.policy_types
