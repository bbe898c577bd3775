-- ===== src/Dashboard.antt =====
-- internal/dashboard/store.go, lifecycle.go and memstore.go: the records of the dashboard and of its
-- store. A pointer to a `clusterState` or a `tenantState` is held by one map entry only, so that the
-- entry holds the state itself.
pub mod Paginate
pub mod Pages
pub mod Findings
pub mod Store
pub mod Merge
pub mod Reads
pub mod Audit
pub mod Broker
pub mod Sources
pub mod Auth
pub mod Scans
pub mod Clusters
pub mod Tenants
pub mod Security
pub mod Guarded
pub mod Router
pub mod Tenancy
pub mod Permits
pub mod Authorized
pub mod Erased
pub mod Entries
pub mod Counted
pub mod ScanRuns
pub mod Lifecycle
pub mod Triage
pub mod Lane
pub mod Routes
pub mod Rows
pub mod Changes
pub mod Approved
pub mod Consistent
pub mod Run
pub mod WellFormed
pub mod Invariant
pub mod NoPanic
pub mod Fleet
pub mod Refinement
pub mod Isolation
pub mod Isolated
use kubeguard.Prelude.{ℕ, String, Bool, true, false, List, [], Option, none, some, Dict}
use kubeguard.Api.{Severity, ResourceRef, Rate, Report}

pub record Cluster : Type 0 where
  pub id : String
  pub name : String
  pub environment : String
  pub last_scan_at : String
  pub total_findings : ℕ
  pub overall_pass_rate : Rate

pub data ScanStatus : Type 0 where
  scan_queued scan_running scan_succeeded scan_failed : ScanStatus

-- `""` is the zero value of a time that is not known.
pub record Scan : Type 0 where
  pub id : String
  pub cluster_id : String
  pub status : ScanStatus
  pub started_at : String
  pub finished_at : String
  pub total_findings : ℕ

-- `by_severity` is keyed by the severities, whose texts are the keys in Go, 0 where a key is missing.
pub record HistorySnapshot : Type 0 where
  pub scan_id : String
  pub at : String
  pub total_findings : ℕ
  pub controls_assessed : ℕ
  pub controls_breached : ℕ
  pub overall_pass_rate : Rate
  pub by_severity : Severity → ℕ

-- `hasScan` and `latest` as one field: `latest` is read only where `hasScan` holds.
pub record ClusterState : Type 0 where
  pub meta : Cluster
  pub latest : Option Report
  pub scans : List Scan
  pub history : List HistorySnapshot

pub record TenantState : Type 0 where
  pub clusters : Dict ClusterState
  pub order : List String
  pub display_name : String

-- `state_other s` is a string that is none of the five names.
pub data FindingState : Type 0 where
  state_open state_acknowledged state_in_progress state_resolved state_risk_accepted : FindingState
  state_other : String → FindingState

pub record Waiver : Type 0 where
  pub justification : String
  pub approved_by : String
  pub created_at : String
  pub expires_at : String

pub record FindingLifecycle : Type 0 where
  pub key : String
  pub cluster_id : String
  pub finding_id : String
  pub resource : ResourceRef
  pub state : FindingState
  pub assignee : String
  pub waiver : Option Waiver
  pub first_seen : String
  pub last_updated : String
  pub resolved_at : String

-- A nil inner map of `lifecycle` reads as an empty one.
pub record MemStore : Type 0 where
  pub tenants : Dict TenantState
  pub lifecycle : Dict (Dict FindingLifecycle)

unfoldable pub new_mem_store : MemStore
new_mem_store = record { tenants = []; lifecycle = [] }

-- `m.tenants[t]` after `tenant(t)`: a new partition where there is none.
unfoldable pub or_new : Option TenantState → TenantState
or_new none = record { clusters = []; order = []; display_name = "" }
or_new (some ts) = ts

-- `m.lifecycle[tenant]`
unfoldable pub or_empty : Option (Dict FindingLifecycle) → Dict FindingLifecycle
or_empty none = []
or_empty (some d) = d

unfoldable pub is_some {ℓ} : {A : Type ℓ} → Option A → Bool
is_some none = false
is_some (some a) = true
