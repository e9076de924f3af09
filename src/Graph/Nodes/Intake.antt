-- ===== src/Graph/Nodes/Intake.antt =====
-- `intake`, `router` and `orchestrator` of graph/nodes.py.
use kyc_agent_nordvik.Prelude.{
  String, Bool, not, Option, none, some, List, [], ◌∷◌, map, select, nonempty, concat, get, length,
  ◌+◌,
}
use kyc_agent_nordvik.Effects.{Run, pure, fail, key_error, ◌>>=◌, ◌>>◌}
use kyc_agent_nordvik.Audit.Sink.{received, errors, classifications, rule, incomplete, dispatched}
use kyc_agent_nordvik.Llm.Base.{PipelineStep}
use kyc_agent_nordvik.Llm.Resilience.{Attempted, succeeded, exhausted}
use kyc_agent_nordvik.Rules.Validation.{check_package_completeness}
use kyc_agent_nordvik.Schemas.Ids
use kyc_agent_nordvik.Schemas.Documents.{InputDocument, ClassifiedDocument, unknown, same_type}
use kyc_agent_nordvik.Schemas.Case.{processing}
use kyc_agent_nordvik.Schemas.Decisions.{RuleFlag}
use kyc_agent_nordvik.Graph.State.{KycState, ExtractTask, Update, no_update}
use kyc_agent_nordvik.Graph.Context.{PipelineContext}
use kyc_agent_nordvik.Graph.Nodes.Base.{
  Command, to, sends, handle_error, orchestrator, decision_gate, docs_by_id, emit, resilient,
}

abbrev pub is_unknown : ClassifiedDocument → Bool
is_unknown c = same_type c.doc_type unknown

abbrev pub unreadable : ClassifiedDocument → String
unreadable c = concat ("unreadable or unclassifiable document: " ∷ c.document_id ∷ [])

-- The payload of each Send; `none` is the KeyError of `docs_by_id[c.document_id]`.
unfoldable pub extract_tasks :
    String → List (String × InputDocument) → List ClassifiedDocument → Option (List ExtractTask)
extract_tasks case_id docs [] = some []
extract_tasks case_id docs (c ∷ known) = elim (get c.document_id docs) [
  | none ↦ none
  | some document ↦ elim (extract_tasks case_id docs known) [
    | none ↦ none
    | some tasks ↦
        some (record { case_id = case_id; document = document; doc_type = c.doc_type } ∷ tasks)
  ]
]

module _ {W : Type 0} (ctx : PipelineContext W) where
  unfoldable pub run_intake : KycState → Run W Update
  run_intake state = do
    let package' = state.kyc_package
    emit ctx state.case_id "intake" "node_completed" (
        received package'.customer_type package'.applicant.full_name
          (map (λ d. d.document_id) package'.documents))
    pure (record no_update { status = some processing })

  unfoldable pub routed : KycState → Attempted (List ClassifiedDocument) → Run W Command
  routed state (exhausted step errs) = do
    emit ctx state.case_id "router" "error" (errors errs)
    pure (record {
      goto = to handle_error;
      update = record no_update {
        errors = errs;
        retry_counts = ("router", length errs) ∷ [];
        degraded_reasons = "router failed after retries and fallback" ∷ [];
      };
    })
  routed state (succeeded classified errs) = do
    emit ctx state.case_id "router" "node_completed" (classifications classified)
    pure (record {
      goto = to orchestrator;
      update = record no_update {
        classified_documents = some classified;
        errors = errs;
        retry_counts = ("router", length errs + 1) ∷ [];
      };
    })

  unfoldable pub run_router : KycState → Run W Command
  unfolding routed
  run_router state = do
    let documents = state.kyc_package.documents
    let customer = state.kyc_package.customer_type
    answer ←
        resilient ctx PipelineStep.router "router" (ctx.services.classify documents customer)
          (some (ctx.fallback.classify documents customer))
    routed state answer

  unfoldable pub report_unreadable : KycState → List String → Run W (Unit {0})
  report_unreadable state [] = pure tt
  report_unreadable state (reason ∷ reasons) = do
    emit ctx state.case_id "orchestrator" "rule_triggered" (rule Ids.unreadable_document reason)
    report_unreadable state reasons

  unfoldable pub send_tasks : List ClassifiedDocument → Option (List ExtractTask) → Run W Command
  send_tasks unknown' none = fail key_error
  send_tasks unknown' (some tasks) = pure (record {
    goto = sends tasks;
    update = record no_update {
      degraded_reasons = map unreadable unknown';
      completeness_flag = some none;
    };
  })

  -- After the unreadable documents are reported: reject the package as incomplete, or dispatch.
  unfoldable pub dispatch :
      KycState → (known unknown' : List ClassifiedDocument) → Option RuleFlag → Run W Command
  unfolding send_tasks extract_tasks docs_by_id
  dispatch state known unknown' (some flag) = do
    emit ctx state.case_id "orchestrator" "rule_triggered"
        (incomplete flag.rule_id flag.details (nonempty unknown'))
    pure (record {
      goto = to decision_gate;
      update = record no_update {
        degraded_reasons = map unreadable unknown';
        completeness_flag = some (some flag);
      };
    })
  dispatch state known unknown' none = do
    emit ctx state.case_id "orchestrator" "node_completed"
        (dispatched (map (λ c. c.document_id) known))
    send_tasks unknown' (extract_tasks state.case_id (docs_by_id state.kyc_package.documents) known)

  -- The body, on `state["classified_documents"]`; `none` is its KeyError.
  unfoldable pub orchestrate : KycState → Option (List ClassifiedDocument) → Run W Command
  unfolding report_unreadable dispatch
  orchestrate state none = fail key_error
  orchestrate state (some classified) = do
    let known = select (λ c. not (is_unknown c)) classified
    let unknown' = select is_unknown classified
    report_unreadable state (map unreadable unknown')
    dispatch state known unknown'
        (check_package_completeness state.kyc_package.customer_type (map (λ c. c.doc_type) known))

  unfoldable pub run_orchestrator : KycState → Run W Command
  unfolding orchestrate
  run_orchestrator state = orchestrate state state.classified_documents
