-- ===== src/Risk/Score.antt =====
-- `Score` of internal/risk/risk.go.
use kubeguard.Prelude.{
  ℕ, ◌+◌, ◌-◌, ◌*◌, String, Bool, List, [], ◌∷◌, ◌++◌, Option, none, some, nat_eq, ltb, gtb, str_lt,
  if◌then◌else◌, cat, length, map, sort_stable,
}
use kubeguard.Api.{Severity, rank, Finding, RiskFactor, RiskScore, Report}
use kubeguard.Risk.{
  points_attack_enabler, points_internet, points_cluster_admin, points_node_access, points_sa_token,
  points_per_extra_workload, max_breadth_bonus, severity_points, PathSignals, SignalMap, signals_of,
  analyze_paths, affected,
}

-- `Score` and `Factors` of the entry that is being built.
pub record Sum : Type 0 where
  pub score : ℕ
  pub factors : List RiskFactor

-- The local function `add`.
unfoldable pub add : String → ℕ → String → Sum → Sum
add name pts detail s = if nat_eq pts 0 then s else record {
  score = s.score + pts;
  factors = s.factors ++ (record { name = name; points = pts; detail = detail }) ∷ [];
}

-- `string(s)`
unfoldable pub severity_text : Severity → String
severity_text Severity.critical = "critical"
severity_text Severity.high = "high"
severity_text Severity.medium = "medium"
severity_text Severity.low = "low"
severity_text Severity.info = "info"
severity_text (Severity.other s) = s

-- The strongest outcome alone.
unfoldable pub add_blast_radius : PathSignals → Sum → Sum
add_blast_radius sig s =
    if sig.reach_admin
    then add "blast-radius" points_cluster_admin "the enabled path reaches cluster-admin" s
    else if sig.reach_node
    then add "blast-radius" points_node_access "the enabled path reaches node access" s
    else if sig.reach_sa_like
    then add "blast-radius" points_sa_token
        "the enabled path reaches a service-account token / secret read" s
    else s

-- `if sig, ok := byFinding[f.ID]; ok`
unfoldable pub add_signals : Option PathSignals → Sum → Sum
add_signals none s = s
add_signals (some sig) s =
    let enabler =
      add "attack-path-enabler" points_attack_enabler "enables a step in at least one attack path"
        s in
    let exposed =
      (if sig.internet
        then add "internet-exposed" points_internet
            "the enabled path is reachable from the public internet" enabler
        else enabler) in
    add_blast_radius sig exposed

unfoldable pub breadth_bonus : ℕ → ℕ
breadth_bonus n =
    let bonus = (n - 1) * points_per_extra_workload in
    if ltb max_breadth_bonus bonus then max_breadth_bonus else bonus

unfoldable pub add_breadth : ℕ → Sum → Sum
add_breadth n s =
    if ltb 1 n then add "breadth" (breadth_bonus n) "the check affects multiple workloads" s else s

unfoldable pub sum_for : SignalMap → List Finding → Finding → Sum
sum_for by_finding findings f = add_breadth (length (affected f.id [] findings)) (
    add_signals (signals_of f.id by_finding) (
      add "severity" (severity_points f.severity)
        (cat ("base weight for " ∷ severity_text f.severity ∷ " severity" ∷ []))
        (record { score = 0; factors = [] })))

unfoldable pub score_finding : SignalMap → List Finding → Finding → RiskScore
score_finding by_finding findings f =
    let s = sum_for by_finding findings f in
    record {
      finding_id = f.id;
      title = f.title;
      severity = f.severity;
      resource = f.resource;
      score = s.score;
      factors = s.factors;
    }

-- The `less` of the sort in `Score`.
abbrev pub risk_less : RiskScore → RiskScore → Bool
risk_less a b =
    if nat_eq a.score b.score
    then (if nat_eq (rank a.severity) (rank b.severity)
        then str_lt a.finding_id b.finding_id
        else gtb (rank a.severity) (rank b.severity))
    else gtb a.score b.score

unfoldable pub score : Report → List RiskScore
score rep =
    sort_stable risk_less (map (score_finding (analyze_paths rep.paths) rep.findings) rep.findings)
