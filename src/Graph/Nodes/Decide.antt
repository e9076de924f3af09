-- ===== src/Graph/Nodes/Decide.antt =====
-- `decision_gate`, `auto_decision`, `human_review`, `finalize` and `handle_error` of
-- graph/nodes.py.
pub mod Reviews
use kyc_agent_nordvik.Prelude.{
  ℕ, zero, suc, ◌+◌, ◌-◌, String, Bool, true, false, ◌&&◌, ◌||◌, Option, none, some, List, [], ◌∷◌,
  ◌++◌, concat, length, drop, nonempty, put, truthy, any, if◌then◌else◌, ◌==◌, is_some, not,
}
use kyc_agent_nordvik.Effects.{Run, pure, fail, assertion_error, ◌>>=◌, ◌>>◌}
use kyc_agent_nordvik.Audit.Sink.{gate, automatic, review, closing, degradation}
use kyc_agent_nordvik.Rules.Risk.{decide_gate}
use kyc_agent_nordvik.Schemas.Ids
use kyc_agent_nordvik.Schemas.Ids.{RuleId, elem}
use kyc_agent_nordvik.Schemas.Documents.{Fields}
use kyc_agent_nordvik.Schemas.Case.{processing, awaiting_human_review, completed}
use kyc_agent_nordvik.Schemas.Decisions.{
  RuleFlag, RiskAssessment, Decision, DecisionOutcome, approve, reject, escalate, human,
  HumanDecision, ReviewOutcome, approved, rejected, ExtractionResult, ProcessingError,
}
use kyc_agent_nordvik.Graph.State.{KycState, Update, no_update, is_degraded}
use kyc_agent_nordvik.Graph.Context.{PipelineContext}
use kyc_agent_nordvik.Graph.Nodes.Base.{Command, to, NodeName, human_review, auto_decision, emit}
use kyc_agent_nordvik.Graph.Nodes.Score.{flags_of}

abbrev pub triggers_of : Option RiskAssessment → List RuleFlag
triggers_of none = []
triggers_of (some r) = r.triggered_rules

-- The decision that the gate takes from the state.
abbrev pub gate_decision : KycState → Decision
gate_decision state =
    decide_gate state.completeness_flag (flags_of state.validation) (triggers_of state.risk)
      (is_degraded state)

-- Where the gate sends the case: `goto` and the update, by the outcome of the decision.
abbrev pub gate_by : DecisionOutcome → Decision → Command
gate_by escalate decision = record {
  goto = to human_review;
  update = record no_update { decision = some decision; status = some awaiting_human_review };
}
gate_by _ decision = record {
  goto = to auto_decision;
  update = record no_update { decision = some decision };
}

abbrev pub gate_command : Decision → Command
gate_command decision = gate_by decision.outcome decision

-- _review_payload
pub record ReviewPayload : Type 0 where
  pub case_id : String
  pub reason_codes : List RuleId
  pub extracted : List (String × Fields)
  pub flags : List RuleFlag
  pub risk : Option RiskAssessment
  pub system_recommendation : String
  pub degraded : Bool
  pub degraded_reasons : List String
  pub resume_error : Option String

abbrev pub codes_of : Option Decision → List RuleId
codes_of none = []
codes_of (some d) = d.reason_codes

extracted_by_id : List (String × Fields) → List ExtractionResult → List (String × Fields)
extracted_by_id dict [] = dict
extracted_by_id dict (e ∷ es) = extracted_by_id (put e.document_id e.fields dict) es

unfoldable pub review_payload : KycState → Option String → ReviewPayload
unfolding extracted_by_id
review_payload state error =
    let codes = codes_of state.decision in
    record {
      case_id = state.case_id;
      reason_codes = codes;
      extracted = extracted_by_id [] state.extractions;
      flags = flags_of state.validation;
      risk = state.risk;
      system_recommendation =
          if elem Ids.sanctions_hit codes
            || elem Ids.pep_match codes
            || elem Ids.ubo_sanctions_or_pep codes
          then "reject"
          else "manual_verification";
      degraded = is_degraded state;
      degraded_reasons = state.degraded_reasons;
      resume_error = error;
    }

-- A key of the resume payload: missing, a text, or a value of another type.
pub data RawField : Type 0 where
  missing other : RawField
  text : String → RawField

-- The value that a case is resumed with.
pub data ResumeValue : Type 0 where
  mapping : (outcome reviewer comment : RawField) → ResumeValue
  not_a_mapping : ResumeValue

abbrev pub outcome_field : RawField → Option ReviewOutcome
outcome_field (text s) =
    if s == "approve" then some approved else if s == "reject" then some rejected else none
outcome_field missing = none
outcome_field other = none

abbrev pub reviewer_field : RawField → Option String
reviewer_field (text s) = some s
reviewer_field missing = none
reviewer_field other = none

abbrev pub comment_field : RawField → Option String
comment_field (text s) = some s
comment_field missing = some ""
comment_field other = none

abbrev one_if_none {ℓ} : {A : Type ℓ} → Option A → ℕ
one_if_none none = 1
one_if_none (some a) = 0

-- A decision, or ValidationError with its `error_count()`.
pub data Validated : Type 0 where
  valid : HumanDecision → Validated
  invalid : ℕ → Validated

abbrev pub assemble : Option ReviewOutcome → Option String → Option String → Validated
assemble (some o) (some r) (some c) = valid (record { outcome = o; reviewer = r; comment = c })
assemble o r c = invalid (one_if_none o + one_if_none r + one_if_none c)

-- HumanDecision.model_validate
unfoldable pub model_validate : ResumeValue → Validated
model_validate (mapping outcome reviewer comment) =
    assemble (outcome_field outcome) (reviewer_field reviewer) (comment_field comment)
model_validate not_a_mapping = invalid 1

abbrev pub outcome_of : ReviewOutcome → DecisionOutcome
outcome_of approved = approve
outcome_of rejected = reject

abbrev pub human_decision : Option Decision → HumanDecision → Decision
human_decision system_decision h = record {
  outcome = outcome_of h.outcome;
  decided_by = human;
  reason_codes = codes_of system_decision;
  rationale = if truthy h.comment then h.comment else concat ("human review by " ∷ h.reviewer ∷ []);
  reviewer = some h.reviewer;
}

-- The loop of `human_review` over the values that the case has been resumed with so far: it ends
-- at the first valid one, or waits for another, with the payload that the reviewer is shown.
pub data Review : Type 0 where
  decided : HumanDecision → Review
  interrupted : ReviewPayload → Review

abbrev pub last_five : List ProcessingError → List ProcessingError
last_five errs = drop (length errs - 5) errs

module _ (python_int_str : ℕ → String) (state : KycState) where
  unfoldable pub review_loop : Option String → List ResumeValue → Review
  review_loop error [] = interrupted (review_payload state error)
  review_loop error (v ∷ vs) = elim (model_validate v) [
    | valid h ↦ decided h
    | invalid n ↦
        review_loop
          (some
            (concat ("invalid review payload: " ∷ python_int_str n ∷ " validation error(s)" ∷ [])))
          vs
  ]

module _ {W : Type 0} (ctx : PipelineContext W) (state : KycState) where
  unfoldable pub run_decision_gate : Run W Command
  run_decision_gate = do
    let decision = gate_decision state
    emit ctx state.case_id "decision_gate" "node_completed"
        (gate decision.outcome decision.reason_codes)
    pure (gate_command decision)

  -- The bodies of `auto_decision` and `finalize` on `state["decision"]`; `none` fails the assert.
  unfoldable pub announce : Option Decision → Run W Update
  announce none = fail assertion_error
  announce (some d) = do
    emit ctx state.case_id "auto_decision" "decision_made"
        (automatic d.outcome d.decided_by d.reason_codes d.rationale)
    pure no_update

  unfoldable pub run_auto_decision : Run W Update
  unfolding announce
  run_auto_decision = announce state.decision

  -- The part of `human_review` behind its loop.
  unfoldable pub run_human_review : HumanDecision → Run W Update
  run_human_review h = do
    let decision = human_decision state.decision h
    emit ctx state.case_id "human_review" "human_decision"
        (review decision.outcome h.reviewer h.comment decision.reason_codes)
    pure (record no_update { decision = some decision })

  unfoldable pub close : Option Decision → Run W Update
  close none = fail assertion_error
  close (some d) = do
    emit ctx state.case_id "finalize" "case_completed"
        (closing d.outcome d.decided_by d.reason_codes d.reviewer (is_degraded state))
    pure (record no_update { status = some completed })

  unfoldable pub run_finalize : Run W Update
  unfolding close
  run_finalize = close state.decision

  unfoldable pub run_handle_error : Run W Update
  run_handle_error = do
    emit ctx state.case_id "handle_error" "error"
        (degradation state.degraded_reasons (last_five state.errors))
    pure (record no_update { status = some processing })
