-- ===== src/Graph/Nodes/Extract.antt =====
-- `extract_document` of graph/nodes.py: the worker for one document.
use kyc_agent_nordvik.Prelude.{String, Option, none, some, List, [], ◌∷◌, concat, length, ◌+◌}
use kyc_agent_nordvik.Effects.{Run, pure, ◌>>=◌, ◌>>◌}
use kyc_agent_nordvik.Audit.Sink.{errors, extraction}
use kyc_agent_nordvik.Llm.Base.{PipelineStep}
use kyc_agent_nordvik.Llm.Resilience.{Attempted, succeeded, exhausted}
use kyc_agent_nordvik.Schemas.Decisions.{ExtractionResult}
use kyc_agent_nordvik.Graph.State.{ExtractTask, Update, no_update}
use kyc_agent_nordvik.Graph.Context.{PipelineContext}
use kyc_agent_nordvik.Graph.Nodes.Base.{emit, resilient}

abbrev pub worker_node : ExtractTask → String
worker_node task = concat ("extract_document:" ∷ task.document.document_id ∷ [])

abbrev pub failed_extraction : ExtractTask → ExtractionResult
failed_extraction task = record {
  document_id = task.document.document_id;
  doc_type = task.doc_type;
  fields = [];
  field_confidence = [];
  extraction_error = some "extraction failed after retries and fallback";
}

abbrev unreadable_reasons : ExtractTask → Option String → List String
unreadable_reasons task none = []
unreadable_reasons task (some e) =
    concat ("document " ∷ task.document.document_id ∷ " unreadable: " ∷ e ∷ []) ∷ []

module _ {W : Type 0} (ctx : PipelineContext W) where
  unfoldable pub extracted : ExtractTask → Attempted ExtractionResult → Run W Update
  extracted task (exhausted step errs) = do
    emit ctx task.case_id (worker_node task) "error" (errors errs)
    pure (record no_update {
      extractions = failed_extraction task ∷ [];
      errors = errs;
      retry_counts = (worker_node task, length errs) ∷ [];
      degraded_reasons =
          concat ("extraction failed for document " ∷ task.document.document_id ∷ []) ∷ [];
    })
  extracted task (succeeded result errs) = do
    emit ctx task.case_id (worker_node task) "node_completed"
        (extraction task.doc_type result.fields result.field_confidence result.extraction_error)
    pure (record no_update {
      extractions = result ∷ [];
      errors = errs;
      retry_counts = (worker_node task, length errs + 1) ∷ [];
      degraded_reasons = unreadable_reasons task result.extraction_error;
    })

  unfoldable pub run_extract_document : ExtractTask → Run W Update
  unfolding extracted
  run_extract_document task = do
    answer ←
        resilient ctx PipelineStep.extractor (worker_node task)
          (ctx.services.extract task.document task.doc_type)
          (some (ctx.fallback.extract task.document task.doc_type))
    extracted task answer
