-- ===== src/Graph/Normalize.antt =====
-- internal/graph/normalize.go: raw documents into the typed views.
use kubeguard.Prelude.{
  String, Bool, false, List, [], ◌∷◌, ◌++◌, map, Option, none, some, ℤ, pos, ◌==◌, if◌then◌else◌,
  any, filter, length, format_int,
}
use kubeguard.Model.{
  Resource, Workload, PodSpecView, VolumeView, ContainerView, SecurityContextView,
  ResourceLimitsView, ServiceAccount, PolicyRule, RoleRef, Subject, Service, ServicePort,
  NetworkPolicy, StringMap,
}
use kubeguard.Graph.Decode.{
  RawCaps, RawPodSecCtx, RawResources, RawEnvVar, RawContainer, RawVolume, RawPodSpec, PortValue,
  RawPort, Decoder,
}

abbrev pub workload_kinds : List String
workload_kinds = "Pod" ∷ "Deployment" ∷ "StatefulSet" ∷ "DaemonSet" ∷ "Job" ∷ "CronJob" ∷ []

unfoldable pub is_workload_kind : String → Bool
unfolding any
is_workload_kind kind = any (λ k. k == kind) workload_kinds

-- `p == nil` gives "".
abbrev pub seccomp_type : Option String → String
seccomp_type none = ""
seccomp_type (some t) = t

abbrev build_security_context : Option RawPodSecCtx → SecurityContextView
build_security_context none = record {
  run_as_user = none;
  run_as_non_root = none;
  seccomp_profile = "";
}
build_security_context (some s) = record {
  run_as_user = s.run_as_user;
  run_as_non_root = s.run_as_non_root;
  seccomp_profile = seccomp_type s.seccomp_profile;
}

abbrev build_volume : RawVolume → VolumeView
build_volume vol = elim vol.host_path [
  | none ↦ record { name = vol.name; host_path = ""; host_path_type = "" }
  | some h ↦ record { name = vol.name; host_path = h.path; host_path_type = h.type }
]

-- `sc.Privileged != nil && *sc.Privileged`
abbrev pub is_set_true : Option Bool → Bool
is_set_true none = false
is_set_true (some b) = b

abbrev caps_of : (RawCaps → List String) → Option RawCaps → List String
caps_of f none = []
caps_of f (some c) = f c

abbrev limits_of : Option RawResources → ResourceLimitsView
limits_of none = record { cpu = ""; memory = "" }
limits_of (some r) = record { cpu = r.cpu; memory = r.memory }

-- The keys of `env` that come from secrets.
abbrev secret_keys : List RawEnvVar → List String
secret_keys env = map (λ e. e.name) (filter (λ e. e.from_secret) env)

unfoldable pub build_container : String → RawContainer → ContainerView
unfolding filter
build_container role c = elim c.security_context [
  | none ↦ record {
    name = c.name;
    image = c.image;
    role = role;
    privileged = false;
    allow_priv_esc = none;
    run_as_user = none;
    run_as_non_root = none;
    read_only_root_fs = none;
    caps_add = [];
    caps_drop = [];
    seccomp_profile = "";
    env_secret_keys = secret_keys c.env;
    limits = limits_of c.resources;
  }
  | some sc ↦ record {
    name = c.name;
    image = c.image;
    role = role;
    privileged = is_set_true sc.privileged;
    allow_priv_esc = sc.allow_privilege_escalation;
    run_as_user = sc.run_as_user;
    run_as_non_root = sc.run_as_non_root;
    read_only_root_fs = sc.read_only_root_filesystem;
    caps_add = caps_of (λ x. x.add) sc.capabilities;
    caps_drop = caps_of (λ x. x.drop) sc.capabilities;
    seccomp_profile = seccomp_type sc.seccomp_profile;
    env_secret_keys = secret_keys c.env;
    limits = limits_of c.resources;
  }
]

unfoldable pub build_containers : List RawContainer → String → List ContainerView
build_containers cs role = map (build_container role) cs

unfoldable pub build_pod_spec : RawPodSpec → PodSpecView
unfolding build_containers
build_pod_spec s = record {
  host_network = s.host_network;
  host_pid = s.host_pid;
  host_ipc = s.host_ipc;
  automount_sa_token = s.automount_service_account_token;
  volumes = map build_volume s.volumes;
  containers =
      build_containers s.init_containers "init"
      ++ (build_containers s.containers "container"
          ++ build_containers s.ephemeral_containers "ephemeral");
  security_context = build_security_context s.security_context;
}

-- The end of `toWorkload`, once the template is decoded.
abbrev workload_of : Resource → ℤ → StringMap → RawPodSpec → Workload
workload_of r replicas labels spec = record {
  resource = r;
  replicas = replicas;
  service_account_name =
      (if spec.service_account_name == "" then "default" else spec.service_account_name);
  pod_labels = labels;
  pod_spec = build_pod_spec spec;
}

abbrev replicas_or_one : Option ℤ → ℤ
replicas_or_one none = pos 1
replicas_or_one (some n) = n

-- `stringifyPort`
unfoldable pub stringify_port : PortValue → String
stringify_port (PortValue.text s) = s
stringify_port (PortValue.whole i) = format_int i
stringify_port PortValue.neither = ""

abbrev build_port : RawPort → ServicePort
build_port p = record {
  port = p.port;
  target_port = stringify_port p.target_port;
  protocol = p.protocol;
  node_port = p.node_port;
}

module _ (d : Decoder) where
  unfoldable pub to_workload : Resource → Option Workload
  unfolding is_workload_kind
  to_workload r =
      if is_workload_kind r.kind
      then (if r.kind == "Pod"
          then elim (d.pod r.raw) [
            | none ↦ none
            | some spec ↦ some (workload_of r (pos 1) r.labels spec)
          ]
          else if r.kind == "CronJob"
          then elim (d.cron_job r.raw) [
            | none ↦ none
            | some t ↦ some (workload_of r (pos 1) t.labels t.spec)
          ]
          else elim (d.controller r.raw) [
            | none ↦ none
            | some (n, t) ↦ some (workload_of r (replicas_or_one n) t.labels t.spec)
          ])
      else none

  unfoldable pub to_service_account : Resource → ServiceAccount
  to_service_account r = record { resource = r; automount_token = d.service_account r.raw }

  unfoldable pub to_rules : Resource → List PolicyRule
  to_rules r = d.rules r.raw

  unfoldable pub to_binding : Resource → RoleRef × List Subject
  to_binding r = (d.role_ref r.raw, d.subjects r.raw)

  unfoldable pub to_service : Resource → Service
  to_service r =
      let m = d.service r.raw in
      record {
        resource = r;
        type = (if m.type == "" then "ClusterIP" else m.type);
        selector = m.selector;
        ports = map build_port m.ports;
      }

  unfoldable pub to_network_policy : Resource → NetworkPolicy
  to_network_policy r =
      let m = d.network_policy r.raw in
      record {
        resource = r;
        pod_selector = m.match_labels;
        policy_types = m.policy_types;
        ingress_rule_count = length m.ingress;
        egress_rule_count = length m.egress;
      }
