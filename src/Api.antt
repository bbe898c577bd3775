-- ===== src/Api.antt =====
-- pkg/api/types.go: the documents that every engine produces and reads. A string type with named
-- constants is a data type with a constructor `other` for every other string.
pub mod Gravity
use kubeguard.Prelude.{ℕ, String, Bool, List, Option}

-- `other s` is a string that is none of the five names.
pub data Severity : Type 0 where
  critical high medium low info : Severity
  other : String → Severity

unfoldable pub rank : Severity → ℕ
rank Severity.critical = 5
rank Severity.high = 4
rank Severity.medium = 3
rank Severity.low = 2
rank Severity.info = 1
rank (Severity.other s) = 0

-- `other ""` is the zero value `Capability("")`.
pub data Capability : Type 0 where
  internet_ingress network_reachable container_escape node_access : Capability
  host_filesystem_access host_network_access host_process_access host_ipc_access : Capability
  service_account_token secret_read pod_create broad_api_access cluster_admin : Capability
  lateral_movement resource_exhaustion root_in_container priv_esc : Capability
  other : String → Capability

pub record ResourceRef : Type 0 where
  pub kind : String
  pub namespace : String
  pub name : String

pub record Evidence : Type 0 where
  pub path : String
  pub value : String

pub record Remediation : Type 0 where
  pub summary : String
  pub snippet : String

pub record ControlRef : Type 0 where
  pub framework : String
  pub id : String
  pub title : String

pub record Finding : Type 0 where
  pub id : String
  pub title : String
  pub severity : Severity
  pub category : String
  pub resource : ResourceRef
  pub evidence : List Evidence
  pub remediation : Remediation
  pub grants : List Capability
  pub refs : List ControlRef

pub record PathHop : Type 0 where
  pub order : ℕ
  pub from : Capability
  pub to : Capability
  pub enabled_by : String
  pub technique : List String
  pub narrative : String

pub record AttackPath : Type 0 where
  pub id : String
  pub title : String
  pub severity : Severity
  pub entry : ResourceRef
  pub hops : List PathHop
  pub summary : String

pub record ControlBreach : Type 0 where
  pub control_id : String
  pub title : String
  pub findings : List String

-- A `float64` rate, kept as the expression that computes it: no code reads a rate back.
pub data Rate : Type 0 where
  unset : Rate
  -- `float64(a) / float64(b)`
  ratio : ℕ → ℕ → Rate
  -- `float64(a-b) / float64(c)`, where the difference may be below 0
  remainder : ℕ → ℕ → ℕ → Rate
  -- `round4(float64(a) / float64(b))`
  rounded : ℕ → ℕ → Rate

pub record FrameworkResult : Type 0 where
  pub framework : String
  pub version : String
  pub assessed : ℕ
  pub breached : ℕ
  pub passed : ℕ
  pub pass_rate : Rate
  pub breaches : List ControlBreach
  pub disclaimer : String

-- `by_severity` is a Go map as a function, 0 where a key is missing.
pub record PostureSummary : Type 0 where
  pub total_findings : ℕ
  pub by_severity : Severity → ℕ
  pub critical_paths : ℕ
  pub controls_assessed : ℕ
  pub controls_breached : ℕ
  pub overall_pass_rate : Rate

pub record EvidenceControl : Type 0 where
  pub control_id : String
  pub title : String
  pub maps_to : List String
  pub breached : Bool
  pub findings : List Finding

pub record EvidencePack : Type 0 where
  pub generated_at : String
  pub source : String
  pub profile : String
  pub id : String
  pub framework : String
  pub version : String
  pub assessed : ℕ
  pub breached : ℕ
  pub passed : ℕ
  pub pass_rate : Rate
  pub controls : List EvidenceControl
  pub disclaimer : String

-- `skipped_by_kind` is a Go map as a list of its entries, in the order of insertion.
pub record CoverageBreakdown : Type 0 where
  pub discovered : ℕ
  pub assessable : ℕ
  pub skipped : ℕ
  pub rate : Rate
  pub skipped_by_kind : List (String × ℕ)

pub record RiskFactor : Type 0 where
  pub name : String
  pub points : ℕ
  pub detail : String

pub record RiskScore : Type 0 where
  pub finding_id : String
  pub title : String
  pub severity : Severity
  pub resource : ResourceRef
  pub score : ℕ
  pub factors : List RiskFactor

pub record Report : Type 0 where
  pub generated_at : String
  pub source : String
  pub profile : String
  pub findings : List Finding
  pub paths : List AttackPath
  pub posture : PostureSummary
  pub compliance : List FrameworkResult
  pub coverage : Option CoverageBreakdown
  pub top_risks : List RiskScore
