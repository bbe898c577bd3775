-- ===== src/Report.antt =====
-- internal/report/asff.go: the types of a document for AWS Security Hub.
pub mod Asff
pub mod Requirements
use kubeguard.Prelude.{ℕ, String, List, Dict}

pub record AsffOptions : Type 0 where
  pub region : String
  pub account_id : String
  pub product_arn : String

pub record AsffSeverity : Type 0 where
  pub label : String
  pub normalized : ℕ

-- `Details.Other`
pub record AsffResource : Type 0 where
  pub kind : String
  pub id : String
  pub region : String
  pub other : Dict String

pub record AsffCompliance : Type 0 where
  pub status : String
  pub related_requirements : List String

-- `remediation` is the text of the recommendation and `workflow` its status.
pub record AsffFinding : Type 0 where
  pub schema_version : String
  pub id : String
  pub product_arn : String
  pub generator_id : String
  pub aws_account_id : String
  pub region : String
  pub types : List String
  pub created_at : String
  pub updated_at : String
  pub severity : AsffSeverity
  pub title : String
  pub description : String
  pub remediation : String
  pub product_fields : Dict String
  pub resources : List AsffResource
  pub compliance : AsffCompliance
  pub record_state : String
  pub workflow : String
