-- ===== src/Tests/Trail.antt =====
-- A case whose audit trail is kept in memory: no document is recognised, and a human approves it.
use kyc_agent_nordvik.Prelude.{◌≡◌, refl, true, some, List, [], ◌∷◌, map}
use kyc_agent_nordvik.Effects.{◌>>=◌}
use kyc_agent_nordvik.Audit.Sink.{AuditEvent, AuditSink, in_memory, safe}
use kyc_agent_nordvik.Llm.Base.{PipelineServices}
use kyc_agent_nordvik.Llm.Resilience.{run_resilient}
use kyc_agent_nordvik.Rules.Validation.{check_package_completeness}
use kyc_agent_nordvik.Rules.Risk.{decide_gate}
use kyc_agent_nordvik.Schemas.Documents.{InputDocument, ClassifiedDocument, unknown}
use kyc_agent_nordvik.Schemas.Decisions.{Registry, sanctions, pep, Decision}
use kyc_agent_nordvik.Graph.State.{apply_update}
use kyc_agent_nordvik.Graph.Context.{PipelineContext, RegistryClient, default_settings}
use kyc_agent_nordvik.Graph.Nodes.Base.{
  NodeName, intake, router, orchestrator, decision_gate, human_review, finalize, emit, resilient,
}
use kyc_agent_nordvik.Graph.Nodes.Intake.{run_intake, run_router, run_orchestrator}
use kyc_agent_nordvik.Graph.Nodes.Decide.{
  run_decision_gate, run_human_review, run_finalize, ResumeValue, mapping, text, model_validate,
  review_loop,
}
use kyc_agent_nordvik.Graph.Builder.{
  Config, ended, run_node, resume, node, resumed, Reach, here, next,
}
use kyc_agent_nordvik.Graph.Builder.Safety.{submitted}
use kyc_agent_nordvik.Graph.Trail.{
  Logged, closing_event, Grows-IsPreorder, Keeps, Records, ServicesGrow,
}
use kyc_agent_nordvik.Graph.Trail.Tells.{Founded}
use kyc_agent_nordvik.Graph.Trail.Complete.{ended-Founded}
use kyc_agent_nordvik.Samples.{today, plain_python, package_of, anna, answer}

abbrev Log : Type 0
Log = List AuditEvent

abbrev held : Log → Log
held log = log

abbrev unrecognised : List InputDocument → List ClassifiedDocument
unrecognised =
    map (λ d. record { document_id = d.document_id; doc_type = unknown; classifier_confidence = 0 })

-- Services that recognise nothing.
abbrev pub blind_services : {W : Type 0} → PipelineServices W
blind_services = record {
  classify = λ documents customer. answer (unrecognised documents);
  extract = λ document t. answer (record {
    document_id = document.document_id;
    doc_type = t;
    fields = [];
    field_confidence = [];
    extraction_error = some "no text";
  });
  verify_grounding = λ document extraction. answer [];
  narrate = λ applicant triggered flags. answer "narrated";
}

abbrev pub clean_client : {W : Type 0} → Registry → RegistryClient W
clean_client r = record { registry = r; search = λ name. answer [] }

abbrev pub recording_in : {W : Type 0} → AuditSink W → PipelineContext W
recording_in audit = record {
  settings = default_settings;
  services = blind_services;
  fallback = blind_services;
  audit = audit;
  sanctions = clean_client sanctions;
  pep = clean_client pep;
  today = today;
  evaluator_enabled = true;
  python = plain_python;
  now = λ w. 0;
}

abbrev recording : PipelineContext Log
recording = recording_in (safe in_memory)

pub blind_services-Grow :
    {W : Type 0} (held : W → List AuditEvent) → ServicesGrow held blind_services
blind_services-Grow held = record {
  classify = λ documents customer. record { at = λ w. (Grows-IsPreorder held).stays w };
  extract = λ document t. record { at = λ w. (Grows-IsPreorder held).stays w };
  verify_grounding = λ document e. record { at = λ w. (Grows-IsPreorder held).stays w };
  narrate = λ applicant triggered flags. record { at = λ w. (Grows-IsPreorder held).stays w };
}

recording-Keeps : Keeps held recording
unfolding safe in_memory
recording-Keeps = record {
  services = blind_services-Grow held;
  fallback = blind_services-Grow held;
  sanctions = λ name. record { at = λ w. (Grows-IsPreorder held).stays w };
  pep = λ name. record { at = λ w. (Grows-IsPreorder held).stays w };
  emit = λ e. record { at = λ w. (e ∷ [], refl) };
}

recording-Records : Records held recording
unfolding safe in_memory
recording-Records = record { keeps = recording-Keeps; appends = λ e w. refl }

abbrev step_at : NodeName → Config Log → Config Log
step_at n c = run_node recording n c.state c.world

abbrev approval : ResumeValue
approval = mapping (text "approve") (text "Eva") (text "called the customer")

abbrev asked : Config Log
asked = step_at human_review (
    step_at decision_gate (
      step_at orchestrator
        (step_at router (step_at intake (submitted recording "case-3" (package_of anna) [])))))

abbrev closed_case : Config Log
closed_case = step_at finalize (resume recording asked.state asked.world [] approval)

closed_run : Reach recording (submitted recording "case-3" (package_of anna) []) closed_case
unfolding run_node run_intake run_router run_orchestrator run_decision_gate
    check_package_completeness decide_gate emit resilient run_resilient ◌>>=◌ apply_update resume
    model_validate review_loop run_human_review run_finalize safe in_memory
closed_run =
    next
      (next
        (next
          (next
            (next (next (next here (node intake refl refl)) (node router refl refl))
              (node orchestrator refl refl))
            (node decision_gate refl refl))
          (node human_review refl refl))
        (resumed [] approval refl refl))
      (node finalize refl refl)

closed_case-ended : closed_case.pc ≡ ended
unfolding run_node run_intake run_router run_orchestrator run_decision_gate
    check_package_completeness decide_gate emit resilient run_resilient ◌>>=◌ apply_update resume
    model_validate review_loop run_human_review run_finalize safe in_memory
closed_case-ended = refl

ended-Founded_example :
    (d : Decision) × (closed_case.state.decision ≡ some d)
    × Founded held closed_case.state d closed_case.world
    × Logged held (closing_event closed_case.state d) closed_case.world
ended-Founded_example =
    ended-Founded held recording recording-Records "case-3" (package_of anna) [] closed_case
      closed_run closed_case-ended
