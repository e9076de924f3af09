-- ===== src/Llm/Base.antt =====
-- llm/base.py: the steps and the service interfaces. A service is what its calls answer.
use kyc_agent_nordvik.Prelude.{String, List}
use kyc_agent_nordvik.Effects.{Call}
use kyc_agent_nordvik.Schemas.Documents.{InputDocument, ClassifiedDocument, DocumentType}
use kyc_agent_nordvik.Schemas.Case.{CustomerType, ApplicantDeclared}
use kyc_agent_nordvik.Schemas.Decisions.{ExtractionResult, RuleFlag}

pub data PipelineStep : Type 0 where
  router extractor validator risk : PipelineStep

pub record PipelineServices (W : Type 0) : Type 0 where
  pub classify : List InputDocument → CustomerType → Call W (List ClassifiedDocument)
  pub extract : InputDocument → DocumentType → Call W ExtractionResult
  pub verify_grounding : InputDocument → ExtractionResult → Call W (List RuleFlag)
  pub narrate :
      ApplicantDeclared → (triggered_rules validation_flags : List RuleFlag) → Call W String
