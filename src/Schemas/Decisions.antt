-- ===== src/Schemas/Decisions.antt =====
-- schemas/decisions.py: what the pipeline's steps produce. Timestamps are left out.
use kyc_agent_nordvik.Prelude.{ℕ, String, Bool, Option, List}
use kyc_agent_nordvik.Python.{Score}
use kyc_agent_nordvik.Schemas.Ids.{RuleId}
use kyc_agent_nordvik.Schemas.Documents.{DocumentType, Fields}

pub data Severity : Type 0 where
  warning critical : Severity

abbrev pub severity_value : Severity → String
severity_value warning = "warning"
severity_value critical = "critical"

pub record RuleFlag : Type 0 where
  pub rule_id : RuleId
  pub severity : Severity
  pub details : String

pub record FieldCheck : Type 0 where
  pub field : String
  pub declared : Option String
  pub extracted : Option String
  pub match : Bool
  pub critical : Bool

pub record ExtractionResult : Type 0 where
  pub document_id : String
  pub doc_type : DocumentType
  pub fields : Fields
  pub field_confidence : List (String × Score)
  pub extraction_error : Option String

pub record ValidationReport : Type 0 where
  pub field_checks : List FieldCheck
  pub rule_flags : List RuleFlag
  pub overall_confidence : Score
  pub evaluator_notes : String

pub data Registry : Type 0 where
  sanctions pep : Registry

abbrev pub registry_value : Registry → String
registry_value sanctions = "sanctions"
registry_value pep = "pep"

pub record RegistryHit : Type 0 where
  pub registry : Registry
  pub matched_name : String
  pub score : Score
  pub list_entry : String

pub data RiskLevel : Type 0 where
  low medium high : RiskLevel

pub record RiskAssessment : Type 0 where
  pub level : RiskLevel
  pub triggered_rules : List RuleFlag
  pub sanctions_hits : List RegistryHit
  pub pep_hits : List RegistryHit
  pub rationale : String

pub data DecisionOutcome : Type 0 where
  approve reject escalate : DecisionOutcome

pub data DecidedBy : Type 0 where
  system human : DecidedBy

pub record Decision : Type 0 where
  pub outcome : DecisionOutcome
  pub decided_by : DecidedBy
  pub reason_codes : List RuleId
  pub rationale : String
  pub reviewer : Option String

-- HumanDecision.outcome: only these two texts pass its schema.
pub data ReviewOutcome : Type 0 where
  approved rejected : ReviewOutcome

pub record HumanDecision : Type 0 where
  pub outcome : ReviewOutcome
  pub reviewer : String
  pub comment : String

pub record ProcessingError : Type 0 where
  pub node : String
  pub error_type : String
  pub message : String
  pub attempt : ℕ
