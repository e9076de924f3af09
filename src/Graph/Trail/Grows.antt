-- ===== src/Graph/Trail/Grows.antt =====
-- What the nodes of graph/nodes.py do to the audit trail, by the ways in which their code is built.
use kyc_agent_nordvik.Prelude.{
  Bool, true, false, String, Option, none, some, List, [], ◌∷◌, if◌then◌else◌,
}
use kyc_agent_nordvik.Effects.{Call, Run, ◌>>=◌}
use kyc_agent_nordvik.Effects.Tracks.{
  CallTracks, Tracks, Tracks-pure, Tracks-fail, Tracks-bind, Tracks-await,
}
use kyc_agent_nordvik.Audit.Sink.{AuditEvent, Payload}
use kyc_agent_nordvik.Llm.Base.{PipelineStep}
use kyc_agent_nordvik.Llm.Resilience.{Attempted, succeeded, exhausted}
use kyc_agent_nordvik.Llm.Resilience.Worlds.{FallbackTracks, run_resilient-R}
use kyc_agent_nordvik.Schemas.Documents.{ClassifiedDocument}
use kyc_agent_nordvik.Schemas.Decisions.{ExtractionResult, RuleFlag, Decision, HumanDecision}
use kyc_agent_nordvik.Graph.State.{KycState, ExtractTask}
use kyc_agent_nordvik.Graph.Context.{PipelineContext}
use kyc_agent_nordvik.Graph.Nodes.Base.{emit, resilient}
use kyc_agent_nordvik.Graph.Nodes.Intake.{
  run_intake, routed, run_router, report_unreadable, send_tasks, dispatch, orchestrate,
  run_orchestrator,
}
use kyc_agent_nordvik.Graph.Nodes.Extract.{extracted, run_extract_document}
use kyc_agent_nordvik.Graph.Nodes.Decide.{
  run_decision_gate, announce, run_auto_decision, run_human_review, close, run_finalize,
  run_handle_error,
}
use kyc_agent_nordvik.Graph.Trail.{Grows, Grows-IsPreorder, Keeps}

module _ {W : Type 0} (log : W → List AuditEvent) (ctx : PipelineContext W)
    (keeps : Keeps log ctx) where
  abbrev pub Grow : {A : Type 0} → Run W A → Type 0
  Grow = Tracks (Grows log)

  pub emit-Grow :
      (case_id node event_type : String) (payload : Payload)
      → Grow (emit ctx case_id node event_type payload)
  unfolding emit
  emit-Grow case_id node event_type payload = record {
    at = λ w. (Tracks-await _ (keeps.emit _)).at w;
  }

  pub resilient-Grow :
      {A : Type 0} (step : PipelineStep) (node : String) (primary : Call W A)
      (fallback : Option (Call W A))
      → CallTracks (Grows log) primary
      → FallbackTracks (Grows log) fallback
      → Grow (resilient ctx step node primary fallback)
  unfolding resilient
  resilient-Grow step node primary fallback h k = record {
    at = λ w.
        run_resilient-R (Grows-IsPreorder log) step node primary fallback h k
          ctx.settings.max_step_retries w;
  }

  pub bind-Grow :
      {A B : Type 0} (m : Run W A) (f : A → Run W B)
      → Grow m
      → ((a : A) → Grow (f a))
      → Grow (m >>= f)
  bind-Grow = Tracks-bind (Grows-IsPreorder log)

  ruleset grow_rules = (Tracks-pure, Tracks-fail, Tracks-bind, emit-Grow, Grows-IsPreorder)

  pub if-Grow :
      {A : Type 0} (b : Bool) (m n : Run W A) → Grow m → Grow n → Grow (if b then m else n)
  if-Grow true m n h k = h
  if-Grow false m n h k = k

  pub intake-Grow : (s : KycState) → Grow (run_intake ctx s)
  unfolding run_intake
  intake-Grow s = search grow_rules

  routed-Grow : (s : KycState) (a : Attempted (List ClassifiedDocument)) → Grow (routed ctx s a)
  unfolding routed
  routed-Grow s (succeeded classified errs) = search grow_rules
  routed-Grow s (exhausted step errs) = search grow_rules

  pub router-Grow : (s : KycState) → Grow (run_router ctx s)
  unfolding run_router
  router-Grow s =
      bind-Grow _ _
        (resilient-Grow _ _ _ _ (keeps.services.classify _ _) (keeps.fallback.classify _ _))
        (routed-Grow s)

  report_unreadable-Grow :
      (s : KycState) (reasons : List String) → Grow (report_unreadable ctx s reasons)
  unfolding report_unreadable
  report_unreadable-Grow s [] = search grow_rules
  report_unreadable-Grow s (reason ∷ reasons) =
      bind-Grow _ _ (emit-Grow _ _ _ _) (λ _. report_unreadable-Grow s reasons)

  send_tasks-Grow :
      (unknown' : List ClassifiedDocument) (tasks : Option (List ExtractTask))
      → Grow (send_tasks ctx unknown' tasks)
  unfolding send_tasks
  send_tasks-Grow unknown' none = search grow_rules
  send_tasks-Grow unknown' (some tasks) = search grow_rules

  dispatch-Grow :
      (s : KycState) (known unknown' : List ClassifiedDocument) (flag : Option RuleFlag)
      → Grow (dispatch ctx s known unknown' flag)
  unfolding dispatch
  dispatch-Grow s known unknown' (some flag) = search grow_rules
  dispatch-Grow s known unknown' none = search (grow_rules, send_tasks-Grow)

  orchestrate-Grow :
      (s : KycState) (classified : Option (List ClassifiedDocument))
      → Grow (orchestrate ctx s classified)
  unfolding orchestrate
  orchestrate-Grow s none = search grow_rules
  orchestrate-Grow s (some classified) = search (grow_rules, report_unreadable-Grow, dispatch-Grow)

  pub orchestrator-Grow : (s : KycState) → Grow (run_orchestrator ctx s)
  unfolding run_orchestrator
  orchestrator-Grow s = orchestrate-Grow s s.classified_documents

  extracted-Grow :
      (task : ExtractTask) (a : Attempted ExtractionResult) → Grow (extracted ctx task a)
  unfolding extracted
  extracted-Grow task (succeeded result errs) = search grow_rules
  extracted-Grow task (exhausted step errs) = search grow_rules

  pub worker-Grow : (task : ExtractTask) → Grow (run_extract_document ctx task)
  unfolding run_extract_document
  worker-Grow task =
      bind-Grow _ _
        (resilient-Grow _ _ _ _ (keeps.services.extract _ _) (keeps.fallback.extract _ _))
        (extracted-Grow task)

  pub decision_gate-Grow : (s : KycState) → Grow (run_decision_gate ctx s)
  unfolding run_decision_gate
  decision_gate-Grow s = search grow_rules

  announce-Grow : (s : KycState) (d : Option Decision) → Grow (announce ctx s d)
  unfolding announce
  announce-Grow s none = search grow_rules
  announce-Grow s (some d) = search grow_rules

  pub auto_decision-Grow : (s : KycState) → Grow (run_auto_decision ctx s)
  unfolding run_auto_decision
  auto_decision-Grow s = announce-Grow s s.decision

  pub human_review-Grow : (s : KycState) (h : HumanDecision) → Grow (run_human_review ctx s h)
  unfolding run_human_review
  human_review-Grow s h = search grow_rules

  close-Grow : (s : KycState) (d : Option Decision) → Grow (close ctx s d)
  unfolding close
  close-Grow s none = search grow_rules
  close-Grow s (some d) = search grow_rules

  pub finalize-Grow : (s : KycState) → Grow (run_finalize ctx s)
  unfolding run_finalize
  finalize-Grow s = close-Grow s s.decision

  pub handle_error-Grow : (s : KycState) → Grow (run_handle_error ctx s)
  unfolding run_handle_error
  handle_error-Grow s = search grow_rules
