-- ===== src/Llm/Factory/Typed.antt =====
-- The extractor that llm/factory.py builds, against the schemas of schemas/documents.py.
use kyc_agent_nordvik.Prelude.{◌≡◌, String, []}
use kyc_agent_nordvik.Python.{Python, Patterns}
use kyc_agent_nordvik.Effects.{Outcome, Call}
use kyc_agent_nordvik.Schemas.Documents.{DocumentType, InputDocument}
use kyc_agent_nordvik.Schemas.Decisions.{ExtractionResult}
use kyc_agent_nordvik.Graph.Context.{Settings}
use kyc_agent_nordvik.Llm.Base.{PipelineStep}
use kyc_agent_nordvik.Llm.Live.{ChatModel}
use kyc_agent_nordvik.Llm.Contract.{Answers}
use kyc_agent_nordvik.Llm.Contract.Typed.{WellTyped, live_extract-WellTyped}
use kyc_agent_nordvik.Llm.Contract.TypedFake.{fake_extract-WellTyped}
use kyc_agent_nordvik.Llm.Factory.{
  is_fake, structured_method, ModelRequest, model_for, extractor_for,
}
use kyc_agent_nordvik.Llm.Factory.Choices.{Any, Any-Answers, choose-Answers, then_build-Answers}

module _ {W : Type 0} (py : Python) (re : Patterns)
    (init : ModelRequest → Outcome (ChatModel W)) where
  -- What an extractor makes of the document is well typed, whatever type it is asked for.
  abbrev pub ExtractsTyped :
      InputDocument → (InputDocument → DocumentType → Call W ExtractionResult) → Type 0
  ExtractsTyped document extract =
      (t : DocumentType) (w : W) → Answers (WellTyped t) (extract document t w).0

  -- Whichever extractor the factory builds from a spec, live or deterministic, and whatever its model
  -- answers: an extraction from a document that has no marker for an injected misreading has the type
  -- that was asked for, and each of its fields is a field of this type's schema and holds a value of
  -- the field's kind, a list of owners in `beneficial_owners` and a text in every other.
  pub extractor_for-ExtractsTyped :
      (settings : Settings) (spec : String) (document : InputDocument)
      → re.glitches document.text_content ≡ []
      → Answers (ExtractsTyped document) (extractor_for py re init spec settings)
  unfolding extractor_for
  extractor_for-ExtractsTyped settings spec document none_there =
      choose-Answers (ExtractsTyped document) (is_fake spec) _ _
        (λ t w. fake_extract-WellTyped py re document t w none_there)
        (then_build-Answers Any (ExtractsTyped document)
          (model_for py re init spec PipelineStep.extractor settings) _ (Any-Answers _)
          (λ model _. λ t w. live_extract-WellTyped py model (structured_method spec) document t w))
