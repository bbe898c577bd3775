-- ===== src/History.antt =====
-- internal/history/store.go: what is kept of a scan.
use kubeguard.Prelude.{ℕ, String, length}
use kubeguard.Api.{Severity, Rate, Report}

pub record Record : Type 0 where
  pub generated_at : String
  pub source : String
  pub profile : String
  pub findings : ℕ
  pub critical : ℕ
  pub high : ℕ
  pub medium : ℕ
  pub low : ℕ
  pub critical_paths : ℕ
  pub overall_pass_rate : Rate

unfoldable pub from_report : Report → Record
from_report r = record {
  generated_at = r.generated_at;
  source = r.source;
  profile = r.profile;
  findings = length r.findings;
  critical = r.posture.by_severity Severity.critical;
  high = r.posture.by_severity Severity.high;
  medium = r.posture.by_severity Severity.medium;
  low = r.posture.by_severity Severity.low;
  critical_paths = r.posture.critical_paths;
  overall_pass_rate = r.posture.overall_pass_rate;
}
