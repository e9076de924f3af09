-- ===== src/Tests/Runs.antt =====
-- Two cases that are followed to their end: one is approved, one meets a registry outage and is
-- decided by a human.
use kyc_agent_nordvik.Prelude.{◌≡◌, refl, none, some, [], ◌∷◌, split}
use kyc_agent_nordvik.Python.{date_ge, round4}
use kyc_agent_nordvik.Effects.{◌>>=◌}
use kyc_agent_nordvik.Rules.Validation.{check_package_completeness}
use kyc_agent_nordvik.Rules.Validation.Run.{run_validation_rules}
use kyc_agent_nordvik.Rules.Risk.{evaluate_risk_rules, risk_level, decide_gate}
use kyc_agent_nordvik.Schemas.Documents.{id_document, proof_of_address}
use kyc_agent_nordvik.Schemas.Decisions.{approve, escalate, Decision, system}
use kyc_agent_nordvik.Schemas.Ids.{all_checks_passed}
use kyc_agent_nordvik.Graph.State.{ExtractTask, Update, no_update, apply_update}
use kyc_agent_nordvik.Graph.Context.{PipelineContext}
use kyc_agent_nordvik.Graph.Confidence.{overall_confidence}
use kyc_agent_nordvik.Graph.Screening.{screen, screening_names}
use kyc_agent_nordvik.Graph.Nodes.Base.{
  NodeName, intake, router, orchestrator, validator, risk_scorer, decision_gate, auto_decision,
  human_review, finalize, emit, resilient,
}
use kyc_agent_nordvik.Graph.Nodes.Intake.{run_intake, run_router, run_orchestrator}
use kyc_agent_nordvik.Graph.Nodes.Extract.{run_extract_document}
use kyc_agent_nordvik.Graph.Nodes.Validate.{run_validator}
use kyc_agent_nordvik.Graph.Nodes.Score.{run_risk_scorer}
use kyc_agent_nordvik.Graph.Nodes.Decide.{
  run_decision_gate, run_auto_decision, run_human_review, run_finalize, gate_decision, ResumeValue,
  mapping, text, model_validate, review_loop,
}
use kyc_agent_nordvik.Graph.Builder.{
  Config, at, ended, todo, ready, run_node, run_worker, all_ready, apply_all, resume, node, worker,
  gather, resumed, Reach, here, next,
}
use kyc_agent_nordvik.Graph.Builder.Safety.{submitted}
use kyc_agent_nordvik.Llm.Resilience.{run_resilient}
use kyc_agent_nordvik.Samples.{
  context, outage, package_of, anna, passport, bill, reading, id_fields, bill_fields,
}

abbrev first_task : ExtractTask
first_task = record { case_id = "case-1"; document = passport; doc_type = id_document }

abbrev second_task : ExtractTask
second_task = record { case_id = "case-1"; document = bill; doc_type = proof_of_address }

abbrev first_done : Update
first_done = record no_update {
  extractions = reading "d1" id_document (id_fields "2026-01-31") ∷ [];
  retry_counts = ("extract_document:d1", 1) ∷ [];
}

abbrev second_done : Update
second_done = record no_update {
  extractions = reading "d2" proof_of_address bill_fields ∷ [];
  retry_counts = ("extract_document:d2", 1) ∷ [];
}

-- The case up to the gate, in either context.
module _ (ctx : PipelineContext (Unit {0})) where
  abbrev step_at : NodeName → Config (Unit {0}) → Config (Unit {0})
  step_at n c = run_node ctx n c.state c.world

  abbrev dispatched : Config (Unit {0})
  dispatched =
      step_at orchestrator
        (step_at router (step_at intake (submitted ctx "case-1" (package_of anna) tt)))

  abbrev one_read : Config (Unit {0})
  one_read = run_worker ctx dispatched.state dispatched.world [] first_task (todo second_task ∷ [])

  abbrev both_read : Config (Unit {0})
  both_read = run_worker ctx one_read.state one_read.world (ready first_done ∷ []) second_task []

  abbrev gathered : Config (Unit {0})
  gathered = record {
    state = apply_all both_read.state (first_done ∷ second_done ∷ []);
    world = both_read.world;
    pc = at validator;
  }

  abbrev gated : Config (Unit {0})
  gated = step_at decision_gate (step_at risk_scorer (step_at validator gathered))

abbrev pub approved : Config (Unit {0})
approved = step_at context finalize (step_at context auto_decision (gated context))

pub approved_run : Reach context (submitted context "case-1" (package_of anna) tt) approved
unfolding run_node run_worker all_ready run_intake run_router run_orchestrator run_extract_document
    run_validator run_risk_scorer run_decision_gate check_package_completeness run_validation_rules
    evaluate_risk_rules risk_level decide_gate overall_confidence screen screening_names emit
    resilient run_resilient ◌>>=◌ apply_update apply_all round4 date_ge split run_auto_decision
    run_finalize
approved_run =
    next
      (next
        (next
          (next
            (next
              (next
                (next
                  (next
                    (next (next (next here (node intake refl refl)) (node router refl refl))
                      (node orchestrator refl refl))
                    (worker [] first_task (todo second_task ∷ []) refl refl))
                  (worker (ready first_done ∷ []) second_task [] refl refl))
                (gather (ready first_done ∷ ready second_done ∷ []) (first_done ∷ second_done ∷ [])
                  refl refl refl))
              (node validator refl refl))
            (node risk_scorer refl refl))
          (node decision_gate refl refl))
        (node auto_decision refl refl))
      (node finalize refl refl)

abbrev pub eva_approves : ResumeValue
eva_approves = mapping (text "approve") (text "Eva") (text "called the customer")

abbrev pub reviewed_case : Config (Unit {0})
reviewed_case =
    let asked = step_at outage human_review (gated outage) in
    let answered = resume outage asked.state asked.world [] eva_approves in
    step_at outage finalize answered

pub reviewed_run : Reach outage (submitted outage "case-1" (package_of anna) tt) reviewed_case
unfolding run_node run_worker all_ready run_intake run_router run_orchestrator run_extract_document
    run_validator run_risk_scorer run_decision_gate check_package_completeness run_validation_rules
    evaluate_risk_rules risk_level decide_gate overall_confidence screen screening_names emit
    resilient run_resilient ◌>>=◌ apply_update apply_all round4 date_ge split run_human_review
    model_validate review_loop resume run_finalize
reviewed_run =
    next
      (next
        (next
          (next
            (next
              (next
                (next
                  (next
                    (next
                      (next (next (next here (node intake refl refl)) (node router refl refl))
                        (node orchestrator refl refl))
                      (worker [] first_task (todo second_task ∷ []) refl refl))
                    (worker (ready first_done ∷ []) second_task [] refl refl))
                  (gather (ready first_done ∷ ready second_done ∷ [])
                    (first_done ∷ second_done ∷ []) refl refl refl))
                (node validator refl refl))
              (node risk_scorer refl refl))
            (node decision_gate refl refl))
          (node human_review refl refl))
        (resumed [] eva_approves refl refl))
      (node finalize refl refl)

pub approved-ended : approved.pc ≡ ended
unfolding run_node run_worker all_ready run_intake run_router run_orchestrator run_extract_document
    run_validator run_risk_scorer run_decision_gate check_package_completeness run_validation_rules
    evaluate_risk_rules risk_level decide_gate overall_confidence screen screening_names emit
    resilient run_resilient ◌>>=◌ apply_update apply_all round4 date_ge split run_auto_decision
    run_finalize
approved-ended = refl

pub reviewed-ended : reviewed_case.pc ≡ ended
unfolding run_node run_worker all_ready run_intake run_router run_orchestrator run_extract_document
    run_validator run_risk_scorer run_decision_gate check_package_completeness run_validation_rules
    evaluate_risk_rules risk_level decide_gate overall_confidence screen screening_names emit
    resilient run_resilient ◌>>=◌ apply_update apply_all round4 date_ge split run_human_review
    model_validate review_loop resume run_finalize
reviewed-ended = refl

abbrev pub approved_decision : Decision
approved_decision = record {
  outcome = approve;
  decided_by = system;
  reason_codes = all_checks_passed ∷ [];
  rationale = "all validation checks passed, no escalation triggers fired";
  reviewer = none;
}

pub approved-decision : approved.state.decision ≡ some approved_decision
unfolding run_node run_worker all_ready run_intake run_router run_orchestrator run_extract_document
    run_validator run_risk_scorer run_decision_gate check_package_completeness run_validation_rules
    evaluate_risk_rules risk_level decide_gate overall_confidence screen screening_names emit
    resilient run_resilient ◌>>=◌ apply_update apply_all round4 date_ge split run_auto_decision
    run_finalize
approved-decision = refl

pub reviewed-escalated : (gate_decision reviewed_case.state).outcome ≡ escalate
unfolding run_node run_worker all_ready run_intake run_router run_orchestrator run_extract_document
    run_validator run_risk_scorer run_decision_gate check_package_completeness run_validation_rules
    evaluate_risk_rules risk_level decide_gate overall_confidence screen screening_names emit
    resilient run_resilient ◌>>=◌ apply_update apply_all round4 date_ge split run_human_review
    model_validate review_loop resume run_finalize
reviewed-escalated = refl
