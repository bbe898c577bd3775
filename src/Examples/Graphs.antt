-- ===== src/Examples/Graphs.antt =====
-- The theorems on graphs, checks and paths at the shop.
use kubeguard.Prelude.{
  String, ◌+◌, Bool, true, false, List, [], ◌∷◌, Option, none, some, ◌≡◌, ◌≢◌, ◌↔◌, refl, inl, inr,
  All, In, false-true, flat_map, map, Any, Perm, Ordered,
}
use kubeguard.Api.{Severity, Capability, Finding, AttackPath}
use kubeguard.Graph.{Graph}
use kubeguard.Graph.Build.Typed.{IsTyped}
use kubeguard.Graph.Resolve.{has_default_deny}
use kubeguard.Graph.Rbac.{
  rule_grants_secrets, rule_grants_pod_create, sa_is_cluster_admin, sa_can_read_secrets,
  sa_can_create_pods,
}
use kubeguard.Graph.Rbac.Powers.{
  Granted, IsAdminGrant, Brings, sa_is_cluster_admin_iff, sa_powers_iff,
}
use kubeguard.Checks.Profile.{includes, zeal_default}
use kubeguard.Checks.Scan.{scan, runnable_ids, run_check, registry}
use kubeguard.Checks.Sorted.{Precedes, IsShown, scan-IsSorted}
use kubeguard.Checks.Fires.{Fires}
use kubeguard.Checks.FiresRbac.{Fires-of_cluster_admin}
use kubeguard.Attack.Escape.{workload_escape, is_escape_cap, host_path_name, exposing_service}
use kubeguard.Attack.Engine.{build_for_workload, build_paths, automount_on}
use kubeguard.Attack.Linked.{IsPath, build_paths-IsPath}
use kubeguard.Attack.Justified.{IsJustified, build_paths-IsJustified}
use kubeguard.Attack.Sorted.{PathPrecedes, anonymous, only, Numbered, build_paths-IsSorted}
use kubeguard.Attack.Unbacked.{HasPrivileged, BlamesPrivileged, escape-unbacked}
use kubeguard.Checks.Included.{scan-runnable_ids}
use kubeguard.Attack.Detected.{Reaches, escape-detected, takeover-detected}
use kubeguard.Examples.Data.{in_order, web, shop, tracer, tracing}

abbrev quote : String → String
quote s = s

shop-IsTyped : IsTyped shop
shop-IsTyped = record { cluster = tt; local = (refl, tt) }

web_admin : sa_is_cluster_admin shop "shop" "web" ≡ true
unfolding sa_is_cluster_admin kubeguard.Prelude.any kubeguard.Graph.Resolve.granted_roles_for_sa
    kubeguard.Prelude.filter kubeguard.Graph.Resolve.subjects_include
    kubeguard.Graph.Resolve.resolve_ref
web_admin = refl

reader_not_admin : sa_is_cluster_admin shop "shop" "reader" ≡ false
unfolding sa_is_cluster_admin kubeguard.Prelude.any kubeguard.Graph.Resolve.granted_roles_for_sa
    kubeguard.Prelude.filter kubeguard.Graph.Resolve.subjects_include
    kubeguard.Graph.Resolve.resolve_ref kubeguard.Graph.Rbac.rule_full_wildcard
    kubeguard.Graph.Rbac.has
reader_not_admin = refl

reader_secrets : sa_can_read_secrets shop "shop" "reader" ≡ true
unfolding sa_can_read_secrets kubeguard.Prelude.any kubeguard.Graph.Rbac.sa_rules
    kubeguard.Graph.Resolve.granted_roles_for_sa kubeguard.Prelude.filter
    kubeguard.Graph.Resolve.subjects_include kubeguard.Graph.Resolve.resolve_ref rule_grants_secrets
    kubeguard.Graph.Rbac.has kubeguard.Graph.Rbac.has_any
reader_secrets = refl

web_escape : workload_escape web ≡ true
unfolding workload_escape
web_escape = refl

web_exposed : exposing_service shop web ≡ some "front"
unfolding exposing_service kubeguard.Graph.Resolve.workloads_for_service
web_exposed = refl

web_token : automount_on shop web ≡ true
unfolding kubeguard.Checks.Pods.automount_effective kubeguard.Graph.Resolve.service_account_by_name
web_token = refl

build_paths-IsJustified_example : All (IsJustified in_order shop) (build_paths quote shop false)
build_paths-IsJustified_example = build_paths-IsJustified quote in_order shop false shop-IsTyped

build_paths-IsPath_example : All IsPath (build_paths quote shop false)
build_paths-IsPath_example = build_paths-IsPath quote shop false

build_paths-IsSorted_example :
    Ordered PathPrecedes (build_paths quote shop true)
    × Numbered 0 (build_paths quote shop true)
    × Perm
        (map anonymous (build_paths quote shop true))
        (map anonymous (flat_map (λ w. only (build_for_workload quote shop w true)) shop.workloads))
build_paths-IsSorted_example = build_paths-IsSorted quote shop true

escape-detected_example :
    (p : AttackPath) × (build_for_workload quote shop web false ≡ some p)
    × (p.severity ≡ Severity.critical)
    × Reaches Capability.node_access p.hops
escape-detected_example = escape-detected quote shop web false web_escape

takeover-detected_example :
    (p : AttackPath) × (build_for_workload quote shop web false ≡ some p)
    × (p.severity ≡ Severity.critical)
    × Reaches Capability.cluster_admin p.hops
takeover-detected_example =
    takeover-detected quote shop web false (inl ("front", web_exposed)) web_token web_admin

sa_is_cluster_admin_iff_example :
    (sa_is_cluster_admin shop "shop" "web" ≡ true) ↔ Granted shop "shop" "web" IsAdminGrant
sa_is_cluster_admin_iff_example = sa_is_cluster_admin_iff shop "shop" "web"

sa_powers_iff_example :
    ((sa_can_read_secrets shop "shop" "reader" ≡ true)
      ↔ Granted shop "shop" "reader" (Brings rule_grants_secrets))
    × ((sa_can_create_pods shop "shop" "reader" ≡ true)
        ↔ Granted shop "shop" "reader" (Brings rule_grants_pod_create))
sa_powers_iff_example = sa_powers_iff shop "shop" "reader"

Fires-of_cluster_admin_example : Fires in_order shop "KG-011"
Fires-of_cluster_admin_example = Fires-of_cluster_admin in_order shop "shop" "web" web_admin

scan-IsSorted_example :
    Ordered Precedes (scan in_order shop zeal_default)
    × ((f : Finding)
        → In f (scan in_order shop zeal_default)
          ↔ Any
              (λ c.
                (includes zeal_default c.meta.id ≡ true)
                × Any (IsShown zeal_default c f) (c.run shop))
              (registry in_order))
    × Perm
        (scan in_order shop zeal_default)
        (flat_map (run_check shop zeal_default) (registry in_order))
scan-IsSorted_example = scan-IsSorted in_order shop zeal_default

tracer_escape : workload_escape tracer ≡ true
unfolding workload_escape is_escape_cap
tracer_escape = refl

tracer_no_path : host_path_name tracer ≡ ""
unfolding host_path_name
tracer_no_path = refl

tracing_unprivileged : ¬ HasPrivileged tracing
tracing_unprivileged h = elim h [
  | inl a ↦ elim a [ inl e ↦ false-true e | inr n ↦ elim n [ ] ]
  | inr n ↦ elim n [ ]
]

escape-unbacked_example :
    (p : AttackPath) × (build_for_workload quote tracing tracer false ≡ some p)
    × BlamesPrivileged p.hops
    × ¬ Fires in_order tracing "KG-001"
escape-unbacked_example =
    escape-unbacked quote in_order tracing tracer false tracer_escape tracer_no_path
      tracing_unprivileged

scan-runnable_ids_example :
    All (λ f. In f.id (runnable_ids in_order zeal_default)) (scan in_order shop zeal_default)
scan-runnable_ids_example = scan-runnable_ids in_order shop zeal_default
