-- ===== src/Attack/Engine.antt =====
-- internal/attack/engine.go: chaining the graph into attack paths.
use kubeguard.Prelude.{
  ℕ, suc, ◌+◌, String, Bool, not, ◌&&◌, ◌||◌, List, [], ◌∷◌, ◌++◌, Option, none, some, ◌==◌, nat_eq,
  ltb, gtb, str_lt, if◌then◌else◌, length, cat, decimal3, sort_stable,
}
use kubeguard.Api.{Severity, rank, Capability, ResourceRef, PathHop, AttackPath}
use kubeguard.Model.{Workload}
use kubeguard.Graph.{Graph}
use kubeguard.Graph.Resolve.{has_default_deny}
use kubeguard.Graph.Rbac.{sa_is_cluster_admin, sa_can_read_secrets, sa_can_create_pods}
use kubeguard.Checks.Pods.{automount_effective}
use kubeguard.Attack.Escape.{
  kg_privileged, kg_host_path, kg_cluster_admin, kg_secrets, kg_pod_create, kg_automount,
  kg_no_net_pol, kg_exposure, workload_escape, host_path_name, escape_enabler, exposing_service,
  has_foothold, foothold_in_cluster, cap_severity,
}
use kubeguard.Attack.Text.{path_title, path_summary}

-- The variables `hops` and `cur` of `buildForWorkload`.
pub record Walk : Type 0 where
  pub hops : List PathHop
  pub cur : Capability

-- The local function `add`.
unfoldable pub add : Walk → Capability → String → List String → String → Walk
add k to by tech narr = record {
  hops =
      k.hops
      ++ (record {
        order = length k.hops + 1;
        from = k.cur;
        to = to;
        enabled_by = by;
        technique = tech;
        narrative = narr;
      })
        ∷ [];
  cur = to;
}

-- `consider`: the more severe of the best so far and a capability's severity.
unfoldable pub consider : Severity → Capability → Severity
consider best c = if ltb (rank best) (rank (cap_severity c)) then cap_severity c else best

unfoldable pub consider_hops : Severity → List PathHop → Severity
consider_hops best [] = best
consider_hops best (h ∷ hs) = consider_hops (consider (consider best h.from) h.to) hs

unfoldable pub path_severity : List PathHop → Capability → Severity
path_severity hops cur = consider (consider_hops Severity.info hops) cur

unfoldable pub entry_key : ResourceRef → String
entry_key r = cat (r.namespace ∷ "/" ∷ r.kind ∷ "/" ∷ r.name ∷ [])

-- The `less` of `sortPaths`.
abbrev pub path_less : AttackPath → AttackPath → Bool
path_less a b =
    if nat_eq (rank a.severity) (rank b.severity)
    then (if nat_eq (length a.hops) (length b.hops)
        then str_lt (entry_key a.entry) (entry_key b.entry)
        else ltb (length a.hops) (length b.hops))
    else gtb (rank a.severity) (rank b.severity)

unfoldable pub sort_paths : List AttackPath → List AttackPath
sort_paths = sort_stable path_less

-- `paths[i].ID = fmt.Sprintf("AP-%03d", i+1)`, from `i` on.
unfoldable pub number_paths : ℕ → List AttackPath → List AttackPath
number_paths i [] = []
number_paths i (p ∷ ps) =
    (record p { id = cat ("AP-" ∷ decimal3 (suc i) ∷ []) }) ∷ number_paths (suc i) ps

-- `automountOn` is `automountEffective` of the checks, written once more.
abbrev pub automount_on : Graph → Workload → Bool
automount_on = automount_effective

-- `quote` is `%q`: `strconv.Quote`.
module _ (quote : String → String) where
  -- The entry: an exposing service, or a foothold in the cluster; `none` ends the function.
  unfoldable pub enter : Graph → Workload → Bool → Option Walk
  enter g w assume_breach = elim (exposing_service g w) [
    | some svc ↦ some (
        add (record { hops = []; cur = Capability.internet_ingress }) Capability.network_reachable
          kg_exposure ("T1190" ∷ [])
          (cat (
            "Internet-facing Service "
            ∷ quote svc
            ∷ " exposes workload "
            ∷ quote w.name
            ∷ "."
            ∷ [])))
    | none ↦
        if workload_escape w || assume_breach
        then some (record { hops = []; cur = Capability.network_reachable })
        else none
  ]

  -- Container escape to the node.
  unfoldable pub escape : Workload → Walk → Walk
  escape w k =
      if workload_escape w
      then add
          (add k Capability.container_escape (escape_enabler w).0 ("T1611" ∷ [])
            (escape_enabler w).1)
          Capability.node_access (if host_path_name w == "" then kg_privileged else kg_host_path)
          ("T1611" ∷ [])
          (cat ("Breakout yields code execution on the node hosting " ∷ quote w.name ∷ "." ∷ []))
      else k

  -- The token and what it is good for; the three flags are the account's powers.
  unfoldable pub escalate : Bool → Bool → Bool → Workload → Walk → Walk
  escalate admin secrets pods w k =
      let t = add k Capability.service_account_token kg_automount ("T1552.001" ∷ []) (
        cat (
          "ServiceAccount "
          ∷ quote w.service_account_name
          ∷ " token is auto-mounted and harvestable."
          ∷ [])) in
      if admin
      then add t Capability.cluster_admin kg_cluster_admin ("T1078" ∷ []) (
          cat (
            quote w.service_account_name
            ∷ " is bound to cluster-admin — full cluster control."
            ∷ []))
      else let s =
          (if secrets
            then add t Capability.secret_read kg_secrets ("T1552" ∷ [])
                (cat (quote w.service_account_name ∷ " can read Secrets across the cluster." ∷ []))
            else t) in
        if pods
        then add s Capability.pod_create kg_pod_create ("T1610" ∷ [])
            (cat (quote w.service_account_name ∷ " can create or exec into pods to pivot." ∷ []))
        else s

  unfoldable pub harvest : Graph → Workload → Walk → Walk
  harvest g w k =
      let admin = sa_is_cluster_admin g w.namespace w.service_account_name in
      let secrets = sa_can_read_secrets g w.namespace w.service_account_name in
      let pods = sa_can_create_pods g w.namespace w.service_account_name in
      if automount_on g w && foothold_in_cluster k.cur && (admin || secrets || pods)
      then escalate admin secrets pods w k
      else k

  -- Lateral movement.
  unfoldable pub spread : Graph → Workload → Walk → Walk
  spread g w k =
      if not (has_default_deny g w.namespace) && has_foothold k.cur
      then add k Capability.lateral_movement kg_no_net_pol ("T1021" ∷ []) (
          cat (
            "No default-deny NetworkPolicy in "
            ∷ quote w.namespace
            ∷ " enables lateral movement."
            ∷ []))
      else k

  -- The chain after the entry.
  unfoldable pub chain : Graph → Workload → Walk → Walk
  chain g w k = spread g w (harvest g w (escape w k))

  -- The end of `buildForWorkload`: paths below high are dropped.
  unfoldable pub finish : Workload → Walk → Option AttackPath
  finish w k =
      let sev = path_severity k.hops k.cur in
      if ltb (rank sev) (rank Severity.high)
      then none
      else some (record {
        id = "";
        title = path_title w k.hops;
        severity = sev;
        entry = record { kind = w.kind; namespace = w.namespace; name = w.name };
        hops = k.hops;
        summary = path_summary w k.hops;
      })

  unfoldable pub build_for_workload : Graph → Workload → Bool → Option AttackPath
  build_for_workload g w assume_breach = elim (enter g w assume_breach) [
    | none ↦ none
    | some k ↦ finish w (chain g w k)
  ]

  -- The paths in the order of the workloads.
  unfoldable pub paths_of : Graph → Bool → List Workload → List AttackPath
  paths_of g assume_breach [] = []
  paths_of g assume_breach (w ∷ ws) = elim (build_for_workload g w assume_breach) [
    | none ↦ paths_of g assume_breach ws
    | some p ↦ p ∷ paths_of g assume_breach ws
  ]

  unfoldable pub build_paths : Graph → Bool → List AttackPath
  build_paths g assume_breach = number_paths 0 (sort_paths (paths_of g assume_breach g.workloads))
