-- ===== src/Gate.antt =====
-- The gate of a scan: internal/cli/exit.go and the end of `runScan` in internal/cli/scan.go.
pub mod Waived
use kubeguard.Prelude.{
  ℕ, suc, String, Bool, true, false, not, List, [], ◌∷◌, map, Option, none, some, ◌==◌, leb, ltb,
  cat, decimal, if◌then◌else◌,
}
use kubeguard.Api.{Severity, rank, ResourceRef, Finding}
use kubeguard.Risk.Score.{severity_text}
use kubeguard.Waiver.{Entry, WaivedFinding, Partitioned, is_empty, partition}

-- `none` is the error on an unknown name.
unfoldable pub parse_severity : String → Option Severity
parse_severity s =
    if s == "critical"
    then some Severity.critical
    else if s == "high"
    then some Severity.high
    else if s == "medium"
    then some Severity.medium
    else if s == "low"
    then some Severity.low
    else none

unfoldable pub count_at_or_above : List Finding → Severity → ℕ
unfolding rank
count_at_or_above [] threshold = 0
count_at_or_above (f ∷ fs) threshold =
    let n = count_at_or_above fs threshold in
    if leb (rank threshold) (rank f.severity) then suc n else n

unfoldable pub gate_breach : Severity → ℕ → String
gate_breach threshold n = cat (
    "--fail-on "
    ∷ severity_text threshold
    ∷ ": "
    ∷ decimal n
    ∷ " finding(s) at or above threshold"
    ∷ [])

unfoldable pub resource_loc : ResourceRef → String
resource_loc r = if not (r.namespace == "") then cat (r.namespace ∷ "/" ∷ r.name ∷ []) else r.name

-- The line on standard error for a waiver that applies.
unfoldable pub waived_line : WaivedFinding → String
unfolding resource_loc
waived_line w = cat (
    "waived: "
    ∷ w.finding.id
    ∷ " "
    ∷ w.finding.title
    ∷ " ("
    ∷ w.finding.resource.kind
    ∷ " "
    ∷ resource_loc w.finding.resource
    ∷ ") until "
    ∷ w.entry.expires
    ∷ " — "
    ∷ w.entry.justification
    ∷ [])

pub data GateResult : Type 0 where
  gate_passed : GateResult
  gate_error : GateResult
  -- The exit code of a breach, with its message.
  gate_hit : String → GateResult

-- What the gate compares with the threshold, and the lines that it writes.
unfoldable pub blocking_of : Option (List Entry) → ℕ → List Finding → List Finding × List String
unfolding is_empty partition waived_line
blocking_of waivers now findings =
    if is_empty waivers
    then (findings, [])
    else (let p = partition waivers findings now in (p.blocking, map waived_line p.waived))

-- The result of `runScan` after its output, for the flag `--fail-on`.
unfoldable pub gate : String → Option (List Entry) → ℕ → List Finding → GateResult
unfolding parse_severity blocking_of count_at_or_above gate_breach
gate fail_on waivers now findings =
    if fail_on == "" then GateResult.gate_passed else elim (parse_severity fail_on) [
      | none ↦ GateResult.gate_error
      | some threshold ↦
          let n = count_at_or_above (blocking_of waivers now findings).0 threshold in
          if ltb 0 n then GateResult.gate_hit (gate_breach threshold n) else GateResult.gate_passed
    ]
