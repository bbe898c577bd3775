-- ===== src/Graph/Decode.antt =====
-- The Kubernetes-shaped structs of internal/graph/normalize.go, and the decoding of a raw document
-- into them, which encoding/json does: a parameter of the model.
use kubeguard.Prelude.{String, Bool, List, Option, ℤ}
use kubeguard.Model.{Json, StringMap, PolicyRule, RoleRef, Subject}

pub record RawCaps : Type 0 where
  pub add : List String
  pub drop : List String

pub record RawSecCtx : Type 0 where
  pub privileged : Option Bool
  pub allow_privilege_escalation : Option Bool
  pub run_as_user : Option ℤ
  pub run_as_non_root : Option Bool
  pub read_only_root_filesystem : Option Bool
  pub capabilities : Option RawCaps
  pub seccomp_profile : Option String

pub record RawPodSecCtx : Type 0 where
  pub run_as_user : Option ℤ
  pub run_as_non_root : Option Bool
  pub seccomp_profile : Option String

-- `resources.limits`
pub record RawResources : Type 0 where
  pub cpu : String
  pub memory : String

-- `from_secret` says that `valueFrom.secretKeyRef` is there.
pub record RawEnvVar : Type 0 where
  pub name : String
  pub from_secret : Bool

pub record RawContainer : Type 0 where
  pub name : String
  pub image : String
  pub security_context : Option RawSecCtx
  pub resources : Option RawResources
  pub env : List RawEnvVar

pub record RawHostPath : Type 0 where
  pub path : String
  pub type : String

pub record RawVolume : Type 0 where
  pub name : String
  pub host_path : Option RawHostPath

pub record RawPodSpec : Type 0 where
  pub service_account_name : String
  pub automount_service_account_token : Option Bool
  pub host_network : Bool
  pub host_pid : Bool
  pub host_ipc : Bool
  pub security_context : Option RawPodSecCtx
  pub volumes : List RawVolume
  pub containers : List RawContainer
  pub init_containers : List RawContainer
  pub ephemeral_containers : List RawContainer

pub record RawTemplate : Type 0 where
  pub labels : StringMap
  pub spec : RawPodSpec

-- What `targetPort any` holds: a text, a float64 that is an int64, or anything else.
pub data PortValue : Type 0 where
  text : String → PortValue
  whole : ℤ → PortValue
  neither : PortValue

pub record RawPort : Type 0 where
  pub port : ℤ
  pub target_port : PortValue
  pub protocol : String
  pub node_port : ℤ

pub record RawService : Type 0 where
  pub type : String
  pub selector : StringMap
  pub ports : List RawPort

pub record RawNetworkPolicy : Type 0 where
  pub match_labels : StringMap
  pub policy_types : List String
  pub ingress : List Json
  pub egress : List Json

-- `json.Marshal` and `json.Unmarshal` into each of the anonymous structs. The first three report a
-- document that does not fit as `none`; the others, behind `decodeInto`, always give a value.
pub record Decoder : Type 0 where
  pub pod : Json → Option RawPodSpec
  pub cron_job : Json → Option RawTemplate
  pub controller : Json → Option (Option ℤ × RawTemplate)
  pub service_account : Json → Option Bool
  pub rules : Json → List PolicyRule
  pub role_ref : Json → RoleRef
  pub subjects : Json → List Subject
  pub service : Json → RawService
  pub network_policy : Json → RawNetworkPolicy
