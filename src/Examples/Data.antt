-- ===== src/Examples/Data.antt =====
-- A small cluster: a shop whose front end is exposed, privileged and cluster-admin, and a job that
-- may read secrets.
use kubeguard.Prelude.{pos, String, Bool, true, false, [], ◌∷◌, none, some, MapRange}
use mathlib.Core.List.{reverse, reverse_perm}
use mathlib.Core.List.Perm
use kubeguard.Api.{Severity, Capability, Finding, Rate, Report}
use kubeguard.Model.{Json, Resource, ContainerView, Workload, Subject}
use kubeguard.Graph.{Graph}
use kubeguard.Graph.Decode.{RawPodSpec, Decoder}
use kubeguard.Compliance.Pack.{Pack}
use kubeguard.Waiver.{Entry}

abbrev pub in_order : MapRange
in_order = record { range = λ keys. keys; range_perm = λ keys. Perm.rfl }

abbrev pub reversed : MapRange
reversed = record { range = λ keys. reverse keys; range_perm = λ keys. reverse_perm keys }

abbrev pub object : String → String → String → Resource
object kind namespace name = record {
  api_version = "v1";
  kind = kind;
  namespace = namespace;
  name = name;
  uid = "";
  labels = [];
  annotations = [];
  raw = Json.null;
}

abbrev pub container : Bool → ContainerView
container privileged = record {
  name = "app";
  image = "registry.example/app:1.2";
  role = "container";
  privileged = privileged;
  allow_priv_esc = none;
  run_as_user = none;
  run_as_non_root = none;
  read_only_root_fs = none;
  caps_add = [];
  caps_drop = [];
  seccomp_profile = "";
  env_secret_keys = [];
  limits = record { cpu = ""; memory = "" };
}

abbrev pub workload : String → String → Bool → Workload
workload name account privileged = record {
  resource = object "Deployment" "shop" name;
  replicas = pos 1;
  service_account_name = account;
  pod_labels = ("app", name) ∷ [];
  pod_spec = record {
    host_network = false;
    host_pid = false;
    host_ipc = false;
    automount_sa_token = none;
    volumes = [];
    containers = container privileged ∷ [];
    security_context = record { run_as_user = none; run_as_non_root = none; seccomp_profile = "" };
  };
}

abbrev pub web : Workload
web = workload "web" "web" true

abbrev pub job : Workload
job = workload "job" "reader" false

-- One workload that adds a capability, in a graph with no privileged container.
abbrev pub tracer : Workload
tracer = record (workload "tracer" "tracer" false) {
  pod_spec = record (workload "tracer" "tracer" false).pod_spec {
    containers = (record (container false) { caps_add = "SYS_ADMIN" ∷ [] }) ∷ [];
  };
}

abbrev pub account : String → Subject
account name = record { kind = "ServiceAccount"; name = name; namespace = "shop" }

abbrev pub shop : Graph
shop = record {
  resources = [];
  workloads = web ∷ job ∷ [];
  service_accounts = [];
  roles =
      (record {
        resource = object "Role" "shop" "reads-secrets";
        rules =
            (record {
              api_groups = "" ∷ [];
              resources = "secrets" ∷ [];
              verbs = "get" ∷ [];
              resource_names = [];
            })
            ∷ [];
      })
      ∷ [];
  cluster_roles = [];
  role_bindings =
      (record {
        resource = object "RoleBinding" "shop" "reader";
        role_ref = record {
          kind = "Role";
          name = "reads-secrets";
          api_group = "rbac.authorization.k8s.io";
        };
        subjects = account "reader" ∷ [];
      })
      ∷ [];
  cluster_role_bindings =
      (record {
        resource = object "ClusterRoleBinding" "" "root";
        role_ref = record {
          kind = "ClusterRole";
          name = "cluster-admin";
          api_group = "rbac.authorization.k8s.io";
        };
        subjects = account "web" ∷ [];
      })
      ∷ [];
  services =
      (record {
        resource = object "Service" "shop" "front";
        type = "LoadBalancer";
        selector = ("app", "web") ∷ [];
        ports = [];
      })
      ∷ [];
  network_policies = [];
  namespaces = "shop" ∷ [];
}

abbrev pub tracing : Graph
tracing = record shop { workloads = tracer ∷ []; cluster_role_bindings = []; services = [] }

abbrev pub found : String → Severity → Finding
found id severity = record {
  id = id;
  title = "";
  severity = severity;
  category = "container";
  resource = record { kind = "Deployment"; namespace = "shop"; name = "web" };
  evidence = [];
  remediation = record { summary = ""; snippet = "" };
  grants = [];
  refs = [];
}

abbrev pub pack : Pack
pack = record {
  id = "cis";
  title = "CIS";
  version = "1";
  disclaimer = "d";
  controls =
      (record { id = "5.2.1"; title = "privileged"; maps_to = "KG-001" ∷ []; assessable = true })
      ∷ (record { id = "5.2.2"; title = "host"; maps_to = "KG-002" ∷ []; assessable = true })
      ∷ [];
}

abbrev pub report : Report
report = record {
  generated_at = "";
  source = "";
  profile = "zeal-default";
  findings = found "KG-001" Severity.critical ∷ found "KG-010" Severity.low ∷ [];
  paths =
      (record {
        id = "AP-001";
        title = "";
        severity = Severity.critical;
        entry = record { kind = "Deployment"; namespace = "shop"; name = "web" };
        hops =
            (record {
              order = 1;
              from = Capability.internet_ingress;
              to = Capability.node_access;
              enabled_by = "KG-001";
              technique = [];
              narrative = "";
            })
            ∷ [];
        summary = "";
      })
      ∷ [];
  posture = record {
    total_findings = 2;
    by_severity = λ s. 0;
    critical_paths = 1;
    controls_assessed = 0;
    controls_breached = 0;
    overall_pass_rate = Rate.unset;
  };
  compliance = [];
  coverage = none;
  top_risks = [];
}

abbrev pub acceptance : Entry
acceptance = record {
  id = "KG-001";
  resource = some (record { kind = ""; namespace = "shop"; name = "" });
  justification = "migration";
  expires = "2030-01-01T00:00:00Z";
  expires_at = 100;
}

-- A decoder for which every document is one pod template with one container.
abbrev pub raw_pod : RawPodSpec
raw_pod = record {
  service_account_name = "web";
  automount_service_account_token = none;
  host_network = false;
  host_pid = false;
  host_ipc = false;
  security_context = none;
  volumes = [];
  containers =
      (record {
        name = "app";
        image = "registry.example/app:1.2";
        security_context = some (record {
          privileged = some true;
          allow_privilege_escalation = none;
          run_as_user = none;
          run_as_non_root = none;
          read_only_root_filesystem = none;
          capabilities = none;
          seccomp_profile = none;
        });
        resources = none;
        env = [];
      })
      ∷ [];
  init_containers = [];
  ephemeral_containers = [];
}

abbrev pub decoder : Decoder
decoder = record {
  pod = λ doc. some raw_pod;
  cron_job = λ doc. some (record { labels = []; spec = raw_pod });
  controller = λ doc. some (none, record { labels = []; spec = raw_pod });
  service_account = λ doc. none;
  rules = λ doc. [];
  role_ref = λ doc. record { kind = "ClusterRole"; name = "cluster-admin"; api_group = "" };
  subjects = λ doc. account "web" ∷ [];
  service = λ doc. record { type = "ClusterIP"; selector = []; ports = [] };
  network_policy =
      λ doc. record { match_labels = []; policy_types = []; ingress = []; egress = [] };
}
