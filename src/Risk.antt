-- ===== src/Risk.antt =====
-- internal/risk/risk.go: the priority score of a finding, as a sum of named factors.
pub mod Score
pub mod Bounds
use kubeguard.Prelude.{
  ℕ, zero, suc, ◌+◌, ◌-◌, ◌*◌, String, Bool, true, false, ◌||◌, List, [], ◌∷◌, ◌++◌, Option, none,
  some, ◌==◌, nat_eq, ltb, gtb, str_lt, if◌then◌else◌, cat, length, map, set_add, sort_stable,
}
use kubeguard.Api.{
  Severity, rank, Capability, ResourceRef, Finding, PathHop, AttackPath, RiskFactor, RiskScore,
  Report,
}

abbrev pub points_attack_enabler : ℕ
points_attack_enabler = 25

abbrev pub points_internet : ℕ
points_internet = 20

abbrev pub points_cluster_admin : ℕ
points_cluster_admin = 30

abbrev pub points_node_access : ℕ
points_node_access = 20

abbrev pub points_sa_token : ℕ
points_sa_token = 10

abbrev pub points_per_extra_workload : ℕ
points_per_extra_workload = 2

abbrev pub max_breadth_bonus : ℕ
max_breadth_bonus = 10

unfoldable pub severity_points : Severity → ℕ
severity_points Severity.critical = 50
severity_points Severity.high = 30
severity_points Severity.medium = 15
severity_points Severity.low = 5
severity_points _ = 0

pub record PathSignals : Type 0 where
  pub internet : Bool
  pub reach_admin : Bool
  pub reach_node : Bool
  pub reach_sa_like : Bool

-- The zero value, which a map gives for a missing key.
abbrev pub no_signals : PathSignals
no_signals = record {
  internet = false;
  reach_admin = false;
  reach_node = false;
  reach_sa_like = false;
}

abbrev is_ingress : Capability → Bool
is_ingress Capability.internet_ingress = true
is_ingress _ = false

-- The `switch h.To` of the first loop.
abbrev reach : PathSignals → Capability → PathSignals
reach s Capability.cluster_admin = record s { reach_admin = true }
reach s Capability.node_access = record s { reach_node = true }
reach s Capability.service_account_token = record s { reach_sa_like = true }
reach s Capability.secret_read = record s { reach_sa_like = true }
reach s _ = s

-- The first loop over the hops of a path.
unfoldable pub path_signals : PathSignals → List PathHop → PathSignals
path_signals s [] = s
path_signals s (h ∷ hs) =
    path_signals
      (reach (if is_ingress h.from || is_ingress h.to then record s { internet = true } else s)
        h.to)
      hs

abbrev pub join_signals : PathSignals → PathSignals → PathSignals
join_signals s t = record {
  internet = s.internet || t.internet;
  reach_admin = s.reach_admin || t.reach_admin;
  reach_node = s.reach_node || t.reach_node;
  reach_sa_like = s.reach_sa_like || t.reach_sa_like;
}

abbrev pub SignalMap : Type 0
SignalMap = List (String × PathSignals)

unfoldable pub signals_of : String → SignalMap → Option PathSignals
signals_of k [] = none
signals_of k ((j, v) ∷ m) = if j == k then some v else signals_of k m

-- `s := m[k]; s = s || t; m[k] = s`
unfoldable pub merge_signals : String → PathSignals → SignalMap → SignalMap
merge_signals k t [] = (k, join_signals no_signals t) ∷ []
merge_signals k t ((j, v) ∷ m) =
    if j == k then (j, join_signals v t) ∷ m else (j, v) ∷ merge_signals k t m

-- The second loop over the hops of a path.
unfoldable pub merge_hops : PathSignals → SignalMap → List PathHop → SignalMap
unfolding merge_signals
merge_hops t m [] = m
merge_hops t m (h ∷ hs) =
    merge_hops t (if h.enabled_by == "" then m else merge_signals h.enabled_by t m) hs

unfoldable pub analyze_from : SignalMap → List AttackPath → SignalMap
unfolding path_signals merge_hops
analyze_from m [] = m
analyze_from m (p ∷ ps) = analyze_from (merge_hops (path_signals no_signals p.hops) m p.hops) ps

unfoldable pub analyze_paths : List AttackPath → SignalMap
unfolding analyze_from signals_of
analyze_paths = analyze_from []

unfoldable pub resource_key : ResourceRef → String
resource_key r = cat (r.kind ∷ "/" ∷ r.namespace ∷ "/" ∷ r.name ∷ [])

-- The keys of `affected[id]`, once the loop has gone through the findings.
unfoldable pub affected : String → List String → List Finding → List String
unfolding set_add
affected id keys [] = keys
affected id keys (f ∷ fs) =
    affected id (if f.id == id then set_add (resource_key f.resource) keys else keys) fs
