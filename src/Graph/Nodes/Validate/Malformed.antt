-- ===== src/Graph/Nodes/Validate/Malformed.antt =====
-- A value that the rules cannot read: `validator` of graph/nodes.py has no handler around them.
use kyc_agent_nordvik.Prelude.{
  get, ◌≡◌, refl, sym, subst, String, true, false, none, some, List, ◌∷◌, ◌++◌, truthy, is_some,
}
use kyc_agent_nordvik.Effects.{crash, Crash, from_rule, fail}
use kyc_agent_nordvik.Schemas.Documents.{id_document, text}
use kyc_agent_nordvik.Schemas.Decisions.{ExtractionResult}
use kyc_agent_nordvik.Rules.Validation.{Checked, done, raise}
use kyc_agent_nordvik.Rules.Validation.Run.{Findings, run_validation_rules}
use kyc_agent_nordvik.Rules.Validation.Report.{Raises, run_validation_rules-Raises}
use kyc_agent_nordvik.Graph.State.{KycState}
use kyc_agent_nordvik.Graph.Context.{PipelineContext}
use kyc_agent_nordvik.Graph.Nodes.Validate.{checked, run_validator, match_thresholds}

module _ {W : Type 0} (ctx : PipelineContext W) (s : KycState) where
  checked-crash :
      (r : Checked Findings) → Raises r → (w : W) → (c : Crash) × ((checked ctx s r w).0 ≡ crash c)
  unfolding checked fail
  checked-crash (raise e) h w = (from_rule e, refl)
  checked-crash (done found) h w = absurd h

  -- If the extraction of an identity document succeeded and its expiry date is a text that is not
  -- empty and no ISO date, an exception leaves the validator, in whatever state the outside world is.
  pub validator-crash :
      (before after : List ExtractionResult) (e : ExtractionResult) (raw : String)
      → s.extractions ≡ before ++ e ∷ after
      → is_some e.extraction_error ≡ false
      → e.doc_type ≡ id_document
      → get "expiry_date" e.fields ≡ some (text raw)
      → truthy raw ≡ true
      → ctx.python.fromisoformat raw ≡ none
      → (w : W) → (c : Crash) × ((run_validator ctx s w).0 ≡ crash c)
  unfolding run_validator
  validator-crash before after e raw at_place readable id there given bad = checked-crash _ (
      subst
        (λ es. Raises (
          run_validation_rules ctx.python s.kyc_package.applicant es ctx.today
            (match_thresholds ctx.settings)))
        (sym at_place)
        (run_validation_rules-Raises ctx.python s.kyc_package.applicant ctx.today
          (match_thresholds ctx.settings) before after e raw readable id there given bad))
