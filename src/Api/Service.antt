-- ===== src/Api/Service.antt =====
-- api/service.py and the answers of api/main.py and api/schemas.py. The checkpointer is LangGraph's:
-- what it has for a case is a `Config`, or nothing before the first step. A run in the background
-- is a way through the graph of graph/builder.py.
pub mod Reviewed
use kyc_agent_nordvik.Prelude.{
  ℕ, String, Bool, true, false, ◌||◌, ◌==◌, Option, none, some, List, [], ◌∷◌, any, select, not,
  nonempty, is_some,
}
use kyc_agent_nordvik.Python.{Score}
use kyc_agent_nordvik.Effects.{Result, ok, crash, Crash}
use kyc_agent_nordvik.Schemas.Case.{CaseStatus, received, KycPackage}
use kyc_agent_nordvik.Schemas.Decisions.{
  Decision, RiskLevel, RiskAssessment, ValidationReport, HumanDecision, ReviewOutcome, approved,
  rejected,
}
use kyc_agent_nordvik.Graph.State.{KycState, is_degraded}
use kyc_agent_nordvik.Graph.Context.{PipelineContext}
use kyc_agent_nordvik.Graph.Nodes.Base.{finalize}
use kyc_agent_nordvik.Graph.Nodes.Decide.{
  ReviewPayload, ResumeValue, mapping, text, Review, decided, interrupted, review_loop,
}
use kyc_agent_nordvik.Graph.Nodes.Decide.Reviews.{model_dump}
use kyc_agent_nordvik.Graph.Builder.{Pc, at, fan, waiting, ended, crashed, Config, run_node, resume}
use kyc_agent_nordvik.Graph.Builder.Lifecycle.{is_final}

pub record CaseStatusResponse : Type 0 where
  pub case_id : String
  pub status : CaseStatus
  pub decision : Option Decision
  pub risk_level : Option RiskLevel
  pub overall_confidence : Option Score
  pub degraded : Bool
  pub degraded_reasons : List String
  pub review_request : Option ReviewPayload

pub record SubmitCaseResponse : Type 0 where
  pub case_id : String
  pub status : CaseStatus

-- What a route answers: a body, 404 for CaseNotFoundError, 409 for CaseNotAwaitingReviewError, or
-- 500 for an exception that nothing catches.
pub data Reply (A : Type 0) : Type 0 where
  body : A → Reply A
  not_found not_awaiting : Reply A
  internal : Crash → Reply A

abbrev pub status_code : {A : Type 0} → (success : ℕ) → Reply A → ℕ
status_code success (body a) = success
status_code success not_found = 404
status_code success not_awaiting = 409
status_code success (internal c) = 500

abbrev level_of : Option RiskAssessment → Option RiskLevel
level_of none = none
level_of (some r) = some r.level

abbrev overall_of : Option ValidationReport → Option Score
overall_of none = none
overall_of (some v) = some v.overall_confidence

abbrev pub payload_of : Review → Option ReviewPayload
payload_of (decided h) = none
payload_of (interrupted payload) = some payload

-- The tasks of the runs that this instance has started and that are not done.
abbrev pub Tasks : Type 0
Tasks = List String

-- `self._tasks[case_id] = task` and `self._tasks.pop(case_id, None)`
abbrev pub start_task : String → Tasks → Tasks
start_task case_id tasks = case_id ∷ select (λ t. not (t == case_id)) tasks

abbrev pub end_task : String → Tasks → Tasks
end_task case_id tasks = select (λ t. not (t == case_id)) tasks

-- The route `submit_case`; `case_id` is the new uuid.
abbrev pub submit_case : (case_id : String) → Tasks → Reply SubmitCaseResponse × Tasks
submit_case case_id tasks =
    (body (record { case_id = case_id; status = received }), start_task case_id tasks)

module _ {W : Type 0} where
  abbrev pub exists : Tasks → String → Option (Config W) → Bool
  exists tasks case_id checkpoint = is_some checkpoint || any (λ t. t == case_id) tasks

module _ {W : Type 0} (ctx : PipelineContext W) where
  -- The interrupts of a snapshot: at most the one of `human_review`.
  abbrev pub interrupt_at : KycState → Pc → Option ReviewPayload
  interrupt_at s (waiting values) = payload_of (review_loop ctx.python.int_str s none values)
  interrupt_at s (at n) = none
  interrupt_at s (fan slots) = none
  interrupt_at s ended = none
  interrupt_at s (crashed c) = none

  abbrev pub interrupt_of : Config W → Option ReviewPayload
  interrupt_of c = interrupt_at c.state c.pc

  abbrev pub response_of : String → Config W → CaseStatusResponse
  response_of case_id c = record {
    case_id = case_id;
    status = c.state.status;
    decision = c.state.decision;
    risk_level = level_of c.state.risk;
    overall_confidence = overall_of c.state.validation;
    degraded = is_degraded c.state;
    degraded_reasons = c.state.degraded_reasons;
    review_request = interrupt_of c;
  }

  -- Before the first step: the case is known by its task only.
  abbrev received_response : String → CaseStatusResponse
  received_response case_id = record {
    case_id = case_id;
    status = received;
    decision = none;
    risk_level = none;
    overall_confidence = none;
    degraded = false;
    degraded_reasons = [];
    review_request = none;
  }

  abbrev status_without : Bool → String → Reply CaseStatusResponse
  status_without true case_id = body (received_response case_id)
  status_without false case_id = not_found

  unfoldable pub status : Tasks → String → Option (Config W) → Reply CaseStatusResponse
  status tasks case_id none = status_without (any (λ t. t == case_id) tasks) case_id
  status tasks case_id (some c) = body (response_of case_id c)

  -- The rest of the run behind `human_review`, up to its end.
  abbrev pub run_on : KycState → W → Pc → Config W
  run_on s w (at n) = run_node ctx n s w
  run_on s w pc = record { state = s; world = w; pc = pc }

  -- `ainvoke(Command(resume=...))` on a case that waits.
  unfoldable pub resume_run : Config W → List ResumeValue → HumanDecision → Config W
  resume_run c values h =
      let c' = resume ctx c.state c.world values (model_dump h) in run_on c'.state c'.world c'.pc

  -- A run that an exception left answers with it; otherwise `status` answers.
  abbrev pub answer_at : Tasks → String → Config W → Pc → Reply CaseStatusResponse
  answer_at tasks case_id c (crashed e) = internal e
  answer_at tasks case_id c (at n) = status tasks case_id (some c)
  answer_at tasks case_id c (fan slots) = status tasks case_id (some c)
  answer_at tasks case_id c (waiting values) = status tasks case_id (some c)
  answer_at tasks case_id c ended = status tasks case_id (some c)

  abbrev review_at :
      Tasks → String → Config W → HumanDecision → Pc → Reply CaseStatusResponse × Option (Config W)
  review_at tasks case_id c h (waiting values) =
      let c' = resume_run c values h in (answer_at tasks case_id c' c'.pc, some c')
  review_at tasks case_id c h (at n) = (not_awaiting, some c)
  review_at tasks case_id c h (fan slots) = (not_awaiting, some c)
  review_at tasks case_id c h ended = (not_awaiting, some c)
  review_at tasks case_id c h (crashed e) = (not_awaiting, some c)

  -- The reply, and what the checkpointer has afterwards.
  unfoldable pub review :
      Tasks
      → String
      → Option (Config W)
      → HumanDecision
      → Reply CaseStatusResponse × Option (Config W)
  unfolding status resume_run
  review tasks case_id none h = (not_found, none)
  review tasks case_id (some c) h = review_at tasks case_id c h c.pc

  abbrev finished_reply : Reply CaseStatusResponse → Reply Bool
  finished_reply (body r) = body (is_final r.status)
  finished_reply not_found = not_found
  finished_reply not_awaiting = not_awaiting
  finished_reply (internal e) = internal e

  abbrev pub is_finished : Tasks → String → Option (Config W) → Reply Bool
  is_finished tasks case_id checkpoint = finished_reply (status tasks case_id checkpoint)
