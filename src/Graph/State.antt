-- ===== src/Graph/State.antt =====
-- graph/state.py: the checkpointed state, and the reducers that merge a node's update into it.
pub mod Counts
use kyc_agent_nordvik.Prelude.{
  ℕ, ◌+◌, String, Bool, ◌≡◌, refl, Option, none, some, List, [], ◌∷◌, ◌++◌, get, put, nonempty,
}
use kyc_agent_nordvik.Schemas.Documents.{InputDocument, DocumentType, ClassifiedDocument}
use kyc_agent_nordvik.Schemas.Case.{KycPackage, CaseStatus, received}
use kyc_agent_nordvik.Schemas.Decisions.{
  RuleFlag, ExtractionResult, ValidationReport, RiskAssessment, Decision, ProcessingError,
}

abbrev pub Counts : Type 0
Counts = List (String × ℕ)

abbrev or_zero : Option ℕ → ℕ
or_zero none = 0
or_zero (some n) = n

-- merged.get(key, 0)
abbrev pub count_of : String → Counts → ℕ
count_of key counts = or_zero (get key counts)

unfoldable pub merge_counts : Counts → Counts → Counts
merge_counts left [] = left
merge_counts left ((key, n) ∷ right) = merge_counts (put key (count_of key left + n) left) right

-- A key that no node has written yet is `none`, or the empty value of its reducer.
pub record KycState : Type 0 where
  pub case_id : String
  pub kyc_package : KycPackage
  pub status : CaseStatus
  pub classified_documents : Option (List ClassifiedDocument)
  pub completeness_flag : Option RuleFlag
  pub extractions : List ExtractionResult
  pub validation : Option ValidationReport
  pub risk : Option RiskAssessment
  pub decision : Option Decision
  pub errors : List ProcessingError
  pub retry_counts : Counts
  pub degraded_reasons : List String

-- The state that CaseService._run starts a case with.
abbrev pub initial_state : String → KycPackage → KycState
initial_state case_id kyc_package = record {
  case_id = case_id;
  kyc_package = kyc_package;
  status = received;
  classified_documents = none;
  completeness_flag = none;
  extractions = [];
  validation = none;
  risk = none;
  decision = none;
  errors = [];
  retry_counts = [];
  degraded_reasons = [];
}

pub record ExtractTask : Type 0 where
  pub case_id : String
  pub document : InputDocument
  pub doc_type : DocumentType

-- What a node returns: `none` or the empty list for a key that it leaves out.
pub record Update : Type 0 where
  pub status : Option CaseStatus
  pub classified_documents : Option (List ClassifiedDocument)
  pub completeness_flag : Option (Option RuleFlag)
  pub extractions : List ExtractionResult
  pub validation : Option ValidationReport
  pub risk : Option RiskAssessment
  pub decision : Option Decision
  pub errors : List ProcessingError
  pub retry_counts : Counts
  pub degraded_reasons : List String

abbrev pub no_update : Update
no_update = record {
  status = none;
  classified_documents = none;
  completeness_flag = none;
  extractions = [];
  validation = none;
  risk = none;
  decision = none;
  errors = [];
  retry_counts = [];
  degraded_reasons = [];
}

module _ {ℓ} {A : Type ℓ} where
  -- A key with no reducer keeps the last value written.
  abbrev pub last_value : A → Option A → A
  last_value old none = old
  last_value old (some new) = new

  abbrev pub last_written : Option A → Option A → Option A
  last_written old none = old
  last_written old (some new) = some new

-- The reducers, key by key.
unfoldable pub apply_update : KycState → Update → KycState
unfolding merge_counts
apply_update s u = record {
  case_id = s.case_id;
  kyc_package = s.kyc_package;
  status = last_value s.status u.status;
  classified_documents = last_written s.classified_documents u.classified_documents;
  completeness_flag = last_value s.completeness_flag u.completeness_flag;
  extractions = s.extractions ++ u.extractions;
  validation = last_written s.validation u.validation;
  risk = last_written s.risk u.risk;
  decision = last_written s.decision u.decision;
  errors = s.errors ++ u.errors;
  retry_counts = merge_counts s.retry_counts u.retry_counts;
  degraded_reasons = s.degraded_reasons ++ u.degraded_reasons;
}

-- _is_degraded of graph/nodes.py
abbrev pub is_degraded : KycState → Bool
is_degraded s = nonempty s.degraded_reasons
