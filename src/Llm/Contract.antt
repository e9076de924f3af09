-- ===== src/Llm/Contract.antt =====
-- What the nodes rely on in the step services: whom the answers are about, and that the fields of an
-- extraction hold what the rules read in them. A call may still raise.
pub mod LiveServices
pub mod Typed
pub mod TypedFake
pub mod FakeServices
use kyc_agent_nordvik.Prelude.{◌≡◌, String, Option, none, List, map}
use kyc_agent_nordvik.Python.{Python}
use kyc_agent_nordvik.Effects.{Outcome, value, raised, Call}
use kyc_agent_nordvik.Llm.Base.{PipelineServices}
use kyc_agent_nordvik.Rules.Validation.Reading.{IsReadable}
use kyc_agent_nordvik.Schemas.Documents.{
  DocumentType, InputDocument, ClassifiedDocument, Fields, unknown,
}
use kyc_agent_nordvik.Schemas.Case.{CustomerType}
use kyc_agent_nordvik.Schemas.Decisions.{ExtractionResult}

-- `P` of what the call answers, unless it raises.
abbrev pub Answers : {A : Type 0} → (A → Type 0) → Outcome A → Type 0
Answers P (value a) = P a
Answers P (raised exc) = Unit

abbrev ids_of : List InputDocument → List String
ids_of documents = map (λ d. d.document_id) documents

-- One classification for each document, in their order.
abbrev pub Covers : List InputDocument → List ClassifiedDocument → Type 0
Covers documents classified = map (λ c. c.document_id) classified ≡ ids_of documents

abbrev pub Reads : Python → InputDocument → DocumentType → ExtractionResult → Type 0
Reads py document t r =
    (r.document_id ≡ document.document_id) × (r.doc_type ≡ t) × IsReadable py r.fields

module _ {W : Type 0} (py : Python) where
  abbrev pub Classifies :
      (List InputDocument → CustomerType → Call W (List ClassifiedDocument)) → Type 0
  Classifies classify =
      (documents : List InputDocument) (customer : CustomerType) (w : W)
      → Answers (Covers documents) (classify documents customer w).0

  -- For one document, whatever it is taken for.
  abbrev pub Extracts :
      (InputDocument → DocumentType → Call W ExtractionResult) → InputDocument → Type 0
  Extracts extract document =
      (t : DocumentType) (w : W) → Answers (Reads py document t) (extract document t w).0
