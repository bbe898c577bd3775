-- ===== src/Attack/Text.antt =====
-- internal/attack/engine.go: the title and the summary of a path.
use kubeguard.Prelude.{
  ℕ, suc, String, List, [], ◌∷◌, ◌++◌, ◌==◌, if◌then◌else◌, ltb, any, cat, join, map,
}
use kubeguard.Api.{Capability, PathHop}
use kubeguard.Model.{Workload}

unfoldable pub cap_precedence : Capability → ℕ
cap_precedence Capability.cluster_admin = 100
cap_precedence Capability.node_access = 90
cap_precedence Capability.secret_read = 80
cap_precedence Capability.pod_create = 75
cap_precedence Capability.container_escape = 70
cap_precedence Capability.broad_api_access = 65
cap_precedence Capability.lateral_movement = 30
cap_precedence Capability.service_account_token = 20
cap_precedence _ = 10

-- The loop of `apexCap`; `above` is `bestRank + 1`, which starts at 0.
unfoldable pub apex_from : Capability → ℕ → List PathHop → Capability
unfolding cap_precedence
apex_from best above [] = best
apex_from best above (h ∷ hs) =
    let r = cap_precedence h.to in
    apex_from (if ltb above (suc r) then h.to else best)
      (if ltb above (suc r) then suc r else above) hs

unfoldable pub apex_cap : List PathHop → Capability
unfolding apex_from
apex_cap hops = apex_from (Capability.other "") 0 hops

abbrev title_prefix : Capability → String
title_prefix Capability.cluster_admin = "Cluster-admin takeover via "
title_prefix Capability.node_access = "Node breakout via "
title_prefix Capability.secret_read = "Secret exfiltration via "
title_prefix Capability.pod_create = "Pod-create pivot via "
title_prefix _ = "Privilege escalation via "

unfoldable pub path_title : Workload → List PathHop → String
unfolding apex_cap
path_title w hops = cat (title_prefix (apex_cap hops) ∷ w.name ∷ [])

-- `string(c)`
unfoldable pub cap_text : Capability → String
cap_text Capability.internet_ingress = "InternetIngress"
cap_text Capability.network_reachable = "NetworkReachable"
cap_text Capability.container_escape = "ContainerEscape"
cap_text Capability.node_access = "NodeAccess"
cap_text Capability.host_filesystem_access = "HostFilesystemAccess"
cap_text Capability.host_network_access = "HostNetworkAccess"
cap_text Capability.host_process_access = "HostProcessAccess"
cap_text Capability.host_ipc_access = "HostIPCAccess"
cap_text Capability.service_account_token = "ServiceAccountToken"
cap_text Capability.secret_read = "SecretRead"
cap_text Capability.pod_create = "PodCreate"
cap_text Capability.broad_api_access = "BroadAPIAccess"
cap_text Capability.cluster_admin = "ClusterAdmin"
cap_text Capability.lateral_movement = "LateralMovement"
cap_text Capability.resource_exhaustion = "ResourceExhaustion"
cap_text Capability.root_in_container = "RootInContainer"
cap_text Capability.priv_esc = "PrivEscWithinContainer"
cap_text (Capability.other s) = s

unfoldable pub cap_chain : List PathHop → List String
cap_chain [] = []
cap_chain (h ∷ hs) = cap_text h.from ∷ map (λ x. cap_text x.to) (h ∷ hs)

-- The techniques in `ts` that are not in `seen`, each once, appended to `out`.
unfoldable pub add_techniques : List String → List String → List String
unfolding any
add_techniques out [] = out
add_techniques out (t ∷ ts) =
    add_techniques (if any (λ s. s == t) out then out else out ++ t ∷ []) ts

unfoldable pub unique_techniques : List String → List PathHop → List String
unfolding add_techniques
unique_techniques out [] = out
unique_techniques out (h ∷ hs) = unique_techniques (add_techniques out h.technique) hs

unfoldable pub path_summary : Workload → List PathHop → String
unfolding cap_chain unique_techniques
path_summary w hops = cat (
    "Entry "
    ∷ w.kind
    ∷ "/"
    ∷ w.name
    ∷ ". Chain: "
    ∷ join " -> " (cap_chain hops)
    ∷ ". Techniques: "
    ∷ join ", " (unique_techniques [] hops)
    ∷ "."
    ∷ [])
