-- ===== src/Graph/Nodes/Validate.antt =====
-- `validator` of graph/nodes.py: the deterministic rules, then the grounding check of every
-- extraction by the evaluator.
pub mod Malformed
use kyc_agent_nordvik.Prelude.{
  String, Bool, true, false, Option, none, some, List, [], ◌∷◌, ◌++◌, concat, get, length,
  if◌then◌else◌,
}
use kyc_agent_nordvik.Effects.{Run, pure, fail, key_error, from_rule, ◌>>=◌, ◌>>◌}
use kyc_agent_nordvik.Audit.Sink.{errors, recovered, flag, validation}
use kyc_agent_nordvik.Llm.Base.{PipelineStep}
use kyc_agent_nordvik.Llm.Resilience.{Attempted, succeeded, exhausted}
use kyc_agent_nordvik.Rules.Validation.{Checked, done, raise, MatchThresholds}
use kyc_agent_nordvik.Rules.Validation.Run.{Findings, run_validation_rules}
use kyc_agent_nordvik.Schemas.Documents.{InputDocument}
use kyc_agent_nordvik.Schemas.Decisions.{
  RuleFlag, ExtractionResult, ProcessingError, ValidationReport,
}
use kyc_agent_nordvik.Graph.State.{KycState, no_update}
use kyc_agent_nordvik.Graph.Context.{PipelineContext, Settings}
use kyc_agent_nordvik.Graph.Confidence.{overall_confidence, has_error}
use kyc_agent_nordvik.Graph.Nodes.Base.{
  Command, to, handle_error, risk_scorer, docs_by_id, emit, resilient,
}

abbrev pub match_thresholds : Settings → MatchThresholds
match_thresholds settings = record {
  name_critical = settings.name_fuzzy_critical;
  name_warning = settings.name_fuzzy_warning;
  address = settings.address_fuzzy_threshold;
}

-- How the loop over the extractions ends: with all flags, or at a StepExhaustedError.
pub data Grounding : Type 0 where
  grounded : List RuleFlag → Grounding
  gave_up : List ProcessingError → Grounding

abbrev bool_str : Bool → String
bool_str true = "True"
bool_str false = "False"

module _ {W : Type 0} (ctx : PipelineContext W) (state : KycState) where
  unfoldable pub report_recovered : List ProcessingError → Run W (Unit {0})
  report_recovered [] = pure tt
  report_recovered (e ∷ errs) = emit ctx state.case_id "validator" "error" (recovered (e ∷ errs))

  unfoldable pub verify : InputDocument → ExtractionResult → Run W (Attempted (List RuleFlag))
  verify document extraction =
      resilient ctx PipelineStep.validator "validator"
        (ctx.services.verify_grounding document extraction)
        (some (ctx.fallback.verify_grounding document extraction))

  unfoldable pub ground_from :
      List (String × InputDocument) → List RuleFlag → List ExtractionResult → Run W Grounding
  unfolding verify report_recovered
  ground_from docs flags [] = pure (grounded flags)
  ground_from docs flags (e ∷ es) = elim (has_error e) [
    | true ↦ ground_from docs flags es
    | false ↦ elim (get e.document_id docs) [
      | none ↦ fail key_error
      | some document ↦ do
        answer ← verify document e
        elim answer [
          | exhausted _ errs ↦ do
            emit ctx state.case_id "validator" "error" (errors errs)
            pure (gave_up errs)
          | succeeded found errs ↦ do report_recovered errs; ground_from docs (flags ++ found) es
        ]
    ]
  ]

  unfoldable pub grounding : Run W Grounding
  unfolding ground_from docs_by_id
  grounding =
      if ctx.evaluator_enabled
      then ground_from (docs_by_id state.kyc_package.documents) [] state.extractions
      else pure (grounded [])

  unfoldable pub report_flags : List RuleFlag → Run W (Unit {0})
  report_flags [] = pure tt
  report_flags (f ∷ flags) = do
    emit ctx state.case_id "validator" "rule_triggered" (flag f.rule_id f.severity f.details)
    report_flags flags

  abbrev pub report_of : Findings → List RuleFlag → ValidationReport
  report_of found grounding_flags = record {
    field_checks = found.checks;
    rule_flags = found.flags ++ grounding_flags;
    overall_confidence =
        overall_confidence state.extractions grounding_flags (found.flags ++ grounding_flags);
    evaluator_notes = concat (
        "deterministic flags: "
        ∷ ctx.python.int_str (length found.flags)
        ∷ "; grounding discrepancies: "
        ∷ ctx.python.int_str (length grounding_flags)
        ∷ "; evaluator_enabled="
        ∷ bool_str ctx.evaluator_enabled
        ∷ []);
  }

  unfoldable pub validated : Findings → Grounding → Run W Command
  unfolding report_flags
  validated found (gave_up errs) = pure (record {
    goto = to handle_error;
    update = record no_update {
      errors = errs;
      retry_counts = ("validator", length errs) ∷ [];
      degraded_reasons = "validator failed after retries and fallback" ∷ [];
    };
  })
  validated found (grounded grounding_flags) = do
    let report = report_of found grounding_flags
    report_flags report.rule_flags
    emit ctx state.case_id "validator" "node_completed"
        (validation report.overall_confidence report.field_checks report.rule_flags)
    pure (record { goto = to risk_scorer; update = record no_update { validation = some report } })

  unfoldable pub checked : Checked Findings → Run W Command
  unfolding validated grounding
  checked (raise e) = fail (from_rule e)
  checked (done found) = do answer ← grounding; validated found answer

  unfoldable pub run_validator : Run W Command
  unfolding checked
  run_validator = checked (
      run_validation_rules ctx.python state.kyc_package.applicant state.extractions ctx.today
        (match_thresholds ctx.settings))
