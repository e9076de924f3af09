-- ===== src/Tests/Services.antt =====
-- Witnesses for llm/resilience.py, audit/sink.py, graph/state.py and the loop of `human_review`.
use kyc_agent_nordvik.Prelude.{◌≡◌, ◌↔◌, refl, inl, String, none, some, [], ◌∷◌}
use kyc_agent_nordvik.Effects.{Call}
use kyc_agent_nordvik.Audit.Sink.{AuditSink}
use kyc_agent_nordvik.Llm.Base.{PipelineStep}
use kyc_agent_nordvik.Llm.Resilience.{run_resilient}
use kyc_agent_nordvik.Llm.Resilience.Budget.{
  first_success, result_of, errors_of, IsNumbered, WithinBudget, run_resilient-eq-first_success,
  run_resilient_history,
}
use kyc_agent_nordvik.Schemas.Decisions.{HumanDecision, approved}
use kyc_agent_nordvik.Graph.State.{initial_state}
use kyc_agent_nordvik.Graph.Nodes.Decide.{not_a_mapping, text, decided, review_loop}
use kyc_agent_nordvik.Graph.Nodes.Decide.Reviews.{model_dump, FirstSaid, review_loop-decided_iff}
use kyc_agent_nordvik.Samples.{broken, answer, package_of, anna, plain_python}

abbrev good : Call (Unit {0}) String
good = answer "text"

run_resilient-eq-first_success_example :
    result_of (run_resilient PipelineStep.risk "risk_scorer" broken (some good) 2 tt)
    ≡ first_success (broken ∷ broken ∷ broken ∷ good ∷ []) tt
run_resilient-eq-first_success_example =
    run_resilient-eq-first_success PipelineStep.risk "risk_scorer" broken (some good) 2 tt

run_resilient_history_example :
    IsNumbered "risk_scorer" 0
      (errors_of (run_resilient PipelineStep.risk "risk_scorer" broken (some good) 2 tt).0)
    × WithinBudget 4 (run_resilient PipelineStep.risk "risk_scorer" broken (some good) 2 tt).0
run_resilient_history_example =
    run_resilient_history PipelineStep.risk "risk_scorer" broken (some good) 2 tt

abbrev broken_sink : AuditSink (Unit {0})
broken_sink = record { emit = λ event. broken; events = λ case_id. broken }

abbrev eva : HumanDecision
eva = record { outcome = approved; reviewer = "Eva"; comment = "" }

eva_said : FirstSaid (not_a_mapping ∷ model_dump eva ∷ []) eva
eva_said = (
  not_a_mapping ∷ [],
  model_dump eva,
  [],
  refl,
  (λ h (c, e, _). cc, tt),
  (text "", refl, inl refl),
)

review_loop-decided_iff_example :
    (review_loop plain_python.int_str
        (initial_state "case-4" (package_of anna))
        none
        (not_a_mapping ∷ model_dump eva ∷ [])
      ≡ decided eva)
    ↔ FirstSaid (not_a_mapping ∷ model_dump eva ∷ []) eva
review_loop-decided_iff_example =
    review_loop-decided_iff plain_python.int_str (initial_state "case-4" (package_of anna))
      (not_a_mapping ∷ model_dump eva ∷ []) none eva
