-- ===== src/Graph/Builder/Routes.antt =====
-- Where the nodes of graph/nodes.py send a case.
use kyc_agent_nordvik.Prelude.{◌≡◌, refl, ◌⊎◌, inl, inr, Option, none, some, List}
use kyc_agent_nordvik.Effects.Ensures.{Ensures, IfOk, skip-IfOk, pure-IfOk, fail-IfOk}
use kyc_agent_nordvik.Llm.Resilience.{succeeded, exhausted}
use kyc_agent_nordvik.Rules.Validation.{Checked, done, raise}
use kyc_agent_nordvik.Rules.Validation.Run.{Findings}
use kyc_agent_nordvik.Schemas.Documents.{ClassifiedDocument}
use kyc_agent_nordvik.Schemas.Decisions.{
  RuleFlag, Decision, DecisionOutcome, approve, reject, escalate,
}
use kyc_agent_nordvik.Graph.State.{KycState, ExtractTask}
use kyc_agent_nordvik.Graph.Context.{PipelineContext}
use kyc_agent_nordvik.Graph.Nodes.Base.{
  NodeName, orchestrator, risk_scorer, decision_gate, auto_decision, human_review, handle_error, to,
  sends, Command,
}
use kyc_agent_nordvik.Graph.Nodes.Intake.{
  routed, run_router, send_tasks, dispatch, orchestrate, run_orchestrator,
}
use kyc_agent_nordvik.Graph.Nodes.Validate.{
  Grounding, grounded, gave_up, validated, checked, run_validator,
}
use kyc_agent_nordvik.Graph.Nodes.Decide.{gate_by, gate_decision, run_decision_gate}

abbrev pub GoesTo : NodeName → NodeName → Command → Type 0
GoesTo a b c = (c.goto ≡ to a) ⊎ (c.goto ≡ to b)

abbrev pub Dispatches : Command → Type 0
Dispatches c = (c.goto ≡ to decision_gate) ⊎ ((tasks : List ExtractTask) × (c.goto ≡ sends tasks))

module _ {W : Type 0} (ctx : PipelineContext W) (s : KycState) where
  pub router-GoesTo : Ensures (run_router ctx s) (IfOk (GoesTo handle_error orchestrator))
  unfolding run_router routed
  router-GoesTo = skip-IfOk _ _ (elim [
    | succeeded classified errs ↦ skip-IfOk _ _ (λ _. pure-IfOk _ (inr refl))
    | exhausted step errs ↦ skip-IfOk _ _ (λ _. pure-IfOk _ (inl refl))
  ])

  send_tasks-Dispatches :
      (unknown' : List ClassifiedDocument) (tasks : Option (List ExtractTask))
      → Ensures (send_tasks ctx unknown' tasks) (IfOk Dispatches)
  unfolding send_tasks
  send_tasks-Dispatches unknown' none = fail-IfOk _
  send_tasks-Dispatches unknown' (some tasks) = pure-IfOk _ (inr (tasks, refl))

  dispatch-Dispatches :
      (known unknown' : List ClassifiedDocument) (flag : Option RuleFlag)
      → Ensures (dispatch ctx s known unknown' flag) (IfOk Dispatches)
  unfolding dispatch
  dispatch-Dispatches known unknown' (some flag) = skip-IfOk _ _ (λ _. pure-IfOk _ (inl refl))
  dispatch-Dispatches known unknown' none = skip-IfOk _ _ (λ _. send_tasks-Dispatches unknown' _)

  orchestrate-Dispatches :
      (classified : Option (List ClassifiedDocument))
      → Ensures (orchestrate ctx s classified) (IfOk Dispatches)
  unfolding orchestrate
  orchestrate-Dispatches none = fail-IfOk _
  orchestrate-Dispatches (some classified) = skip-IfOk _ _ (λ _. dispatch-Dispatches _ _ _)

  pub orchestrator-Dispatches : Ensures (run_orchestrator ctx s) (IfOk Dispatches)
  unfolding run_orchestrator
  orchestrator-Dispatches = orchestrate-Dispatches s.classified_documents

  validated-GoesTo :
      (found : Findings) (answer : Grounding)
      → Ensures (validated ctx s found answer) (IfOk (GoesTo handle_error risk_scorer))
  unfolding validated
  validated-GoesTo found (gave_up errs) = pure-IfOk _ (inl refl)
  validated-GoesTo found (grounded flags) =
      skip-IfOk _ _ (λ _. skip-IfOk _ _ (λ _. pure-IfOk _ (inr refl)))

  checked-GoesTo :
      (r : Checked Findings) → Ensures (checked ctx s r) (IfOk (GoesTo handle_error risk_scorer))
  unfolding checked
  checked-GoesTo (raise e) = fail-IfOk _
  checked-GoesTo (done found) = skip-IfOk _ _ (λ answer. validated-GoesTo found answer)

  pub validator-GoesTo : Ensures (run_validator ctx s) (IfOk (GoesTo handle_error risk_scorer))
  unfolding run_validator
  validator-GoesTo = checked-GoesTo _

  gate_by-GoesTo :
      (o : DecisionOutcome) (d : Decision) → GoesTo human_review auto_decision (gate_by o d)
  gate_by-GoesTo approve d = inr refl
  gate_by-GoesTo reject d = inr refl
  gate_by-GoesTo escalate d = inl refl

  pub decision_gate-GoesTo :
      Ensures (run_decision_gate ctx s) (IfOk (GoesTo human_review auto_decision))
  unfolding run_decision_gate
  decision_gate-GoesTo =
      skip-IfOk _ _ (λ _. pure-IfOk _ (gate_by-GoesTo (gate_decision s).outcome (gate_decision s)))
