-- ===== src/Graph/Builder/Lifecycle/Writes.antt =====
-- What the nodes of graph/nodes.py write of the status and the decision.
use kyc_agent_nordvik.Prelude.{◌≡◌, refl, Option, none, some, List}
use kyc_agent_nordvik.Effects.Ensures.{Ensures, IfOk, skip-IfOk, pure-IfOk, fail-IfOk}
use kyc_agent_nordvik.Llm.Resilience.{succeeded, exhausted}
use kyc_agent_nordvik.Rules.Validation.{Checked, done, raise}
use kyc_agent_nordvik.Rules.Validation.Run.{Findings}
use kyc_agent_nordvik.Schemas.Documents.{ClassifiedDocument}
use kyc_agent_nordvik.Schemas.Case.{processing, completed}
use kyc_agent_nordvik.Schemas.Decisions.{RuleFlag, Decision, HumanDecision}
use kyc_agent_nordvik.Graph.State.{KycState, ExtractTask}
use kyc_agent_nordvik.Graph.Context.{PipelineContext}
use kyc_agent_nordvik.Graph.Nodes.Base.{Command}
use kyc_agent_nordvik.Graph.Nodes.Intake.{
  run_intake, routed, run_router, send_tasks, dispatch, orchestrate, run_orchestrator,
}
use kyc_agent_nordvik.Graph.Nodes.Extract.{extracted, run_extract_document}
use kyc_agent_nordvik.Graph.Nodes.Validate.{
  Grounding, grounded, gave_up, validated, checked, run_validator,
}
use kyc_agent_nordvik.Graph.Nodes.Score.{assess, run_risk_scorer}
use kyc_agent_nordvik.Graph.Nodes.Decide.{
  gate_decision, gate_command, run_decision_gate, announce, run_auto_decision, human_decision,
  run_human_review, close, run_finalize, run_handle_error,
}
use kyc_agent_nordvik.Graph.Builder.Lifecycle.{Writes}

-- A command whose update writes neither.
abbrev pub CommandKeeps : Command → Type 0
CommandKeeps c = Writes none none c.update

module _ {W : Type 0} (ctx : PipelineContext W) where
  pub worker-Writes :
      (task : ExtractTask) → Ensures (run_extract_document ctx task) (IfOk (Writes none none))
  unfolding run_extract_document extracted
  worker-Writes task = skip-IfOk _ _ (elim [
    | succeeded result errs ↦ skip-IfOk _ _ (λ _. pure-IfOk _ (refl, refl))
    | exhausted step errs ↦ skip-IfOk _ _ (λ _. pure-IfOk _ (refl, refl))
  ])

module _ {W : Type 0} (ctx : PipelineContext W) (s : KycState) where
  pub intake-Writes : Ensures (run_intake ctx s) (IfOk (Writes (some processing) none))
  unfolding run_intake
  intake-Writes = skip-IfOk _ _ (λ _. pure-IfOk _ (refl, refl))

  pub router-Writes : Ensures (run_router ctx s) (IfOk CommandKeeps)
  unfolding run_router routed
  router-Writes = skip-IfOk _ _ (elim [
    | succeeded classified errs ↦ skip-IfOk _ _ (λ _. pure-IfOk _ (refl, refl))
    | exhausted step errs ↦ skip-IfOk _ _ (λ _. pure-IfOk _ (refl, refl))
  ])

  send_tasks-Writes :
      (unknown' : List ClassifiedDocument) (tasks : Option (List ExtractTask))
      → Ensures (send_tasks ctx unknown' tasks) (IfOk CommandKeeps)
  unfolding send_tasks
  send_tasks-Writes unknown' none = fail-IfOk _
  send_tasks-Writes unknown' (some tasks) = pure-IfOk _ (refl, refl)

  dispatch-Writes :
      (known unknown' : List ClassifiedDocument) (flag : Option RuleFlag)
      → Ensures (dispatch ctx s known unknown' flag) (IfOk CommandKeeps)
  unfolding dispatch
  dispatch-Writes known unknown' (some flag) = skip-IfOk _ _ (λ _. pure-IfOk _ (refl, refl))
  dispatch-Writes known unknown' none = skip-IfOk _ _ (λ _. send_tasks-Writes unknown' _)

  orchestrate-Writes :
      (classified : Option (List ClassifiedDocument))
      → Ensures (orchestrate ctx s classified) (IfOk CommandKeeps)
  unfolding orchestrate
  orchestrate-Writes none = fail-IfOk _
  orchestrate-Writes (some classified) = skip-IfOk _ _ (λ _. dispatch-Writes _ _ _)

  pub orchestrator-Writes : Ensures (run_orchestrator ctx s) (IfOk CommandKeeps)
  unfolding run_orchestrator
  orchestrator-Writes = orchestrate-Writes s.classified_documents

  validated-Writes :
      (found : Findings) (answer : Grounding)
      → Ensures (validated ctx s found answer) (IfOk CommandKeeps)
  unfolding validated
  validated-Writes found (gave_up errs) = pure-IfOk _ (refl, refl)
  validated-Writes found (grounded flags) =
      skip-IfOk _ _ (λ _. skip-IfOk _ _ (λ _. pure-IfOk _ (refl, refl)))

  checked-Writes : (r : Checked Findings) → Ensures (checked ctx s r) (IfOk CommandKeeps)
  unfolding checked
  checked-Writes (raise e) = fail-IfOk _
  checked-Writes (done found) = skip-IfOk _ _ (λ answer. validated-Writes found answer)

  pub validator-Writes : Ensures (run_validator ctx s) (IfOk CommandKeeps)
  unfolding run_validator
  validator-Writes = checked-Writes _

  pub risk_scorer-Writes : Ensures (run_risk_scorer ctx s) (IfOk (Writes none none))
  unfolding run_risk_scorer assess
  risk_scorer-Writes = skip-IfOk _ _ (λ r.
      skip-IfOk _ _
        (λ narration. skip-IfOk _ _ (λ _. skip-IfOk _ _ (λ _. pure-IfOk _ (refl, refl)))))

  pub decision_gate-commands :
      Ensures (run_decision_gate ctx s) (IfOk (λ c. c ≡ gate_command (gate_decision s)))
  unfolding run_decision_gate
  decision_gate-commands = skip-IfOk _ _ (λ _. pure-IfOk _ refl)

  announce-Writes : (d : Option Decision) → Ensures (announce ctx s d) (IfOk (Writes none none))
  unfolding announce
  announce-Writes none = fail-IfOk _
  announce-Writes (some d) = skip-IfOk _ _ (λ _. pure-IfOk _ (refl, refl))

  pub auto_decision-Writes : Ensures (run_auto_decision ctx s) (IfOk (Writes none none))
  unfolding run_auto_decision
  auto_decision-Writes = announce-Writes s.decision

  pub human_review-Writes :
      (h : HumanDecision)
      → Ensures (run_human_review ctx s h) (IfOk (Writes none (some (human_decision s.decision h))))
  unfolding run_human_review
  human_review-Writes h = skip-IfOk _ _ (λ _. pure-IfOk _ (refl, refl))

  close-Writes :
      (d : Option Decision) → Ensures (close ctx s d) (IfOk (Writes (some completed) none))
  unfolding close
  close-Writes none = fail-IfOk _
  close-Writes (some d) = skip-IfOk _ _ (λ _. pure-IfOk _ (refl, refl))

  pub finalize-Writes : Ensures (run_finalize ctx s) (IfOk (Writes (some completed) none))
  unfolding run_finalize
  finalize-Writes = close-Writes s.decision

  pub handle_error-Writes : Ensures (run_handle_error ctx s) (IfOk (Writes (some processing) none))
  unfolding run_handle_error
  handle_error-Writes = skip-IfOk _ _ (λ _. pure-IfOk _ (refl, refl))
