-- ===== src/Llm/Live.antt =====
-- llm/live.py: the step services on a chat model. `ChatModel` stands for the model of LangChain with
-- its structured outputs already parsed by their schemas; each call says what it is asked with.
pub mod Evaluator
use mathlib.Core.Option
use kyc_agent_nordvik.Prelude.{
  ℕ, String, Option, none, some, List, [], ◌∷◌, ◌++◌, map, concat, join, get, put, take_chars,
}
use kyc_agent_nordvik.Python.{Python, Score, percent}
use kyc_agent_nordvik.Effects.{Exception, Outcome, value, raised, Call}
use kyc_agent_nordvik.Llm.Base.{PipelineServices}
use kyc_agent_nordvik.Schemas.Ids
use kyc_agent_nordvik.Schemas.Ids.{value as id_value}
use kyc_agent_nordvik.Schemas.Case.{CustomerType, customer_value, ApplicantDeclared}
use kyc_agent_nordvik.Schemas.Documents.{
  DocumentType, id_document, proof_of_address, business_registration, ubo_declaration, unknown,
  type_value, InputDocument, ClassifiedDocument, FieldValue, Fields,
}
use kyc_agent_nordvik.Schemas.Decisions.{ExtractionResult, RuleFlag, critical, severity_value}
use kyc_agent_nordvik.Schemas.Fields.{SchemaOf, present, dump}

-- _DocClassification and _Discrepancy
pub record DocClassification : Type 0 where
  pub document_id : String
  pub doc_type : DocumentType
  pub confidence : Score

pub record Discrepancy : Type 0 where
  pub field : String
  pub extracted_value : String
  pub reason : String

-- The messages of a call: ("system", …) and ("user", …).
pub record Prompt : Type 0 where
  pub system : String
  pub user : String

pub record ChatModel (W : Type 0) : Type 0 where
  -- with_structured_output(schema, method=…) and `ainvoke`, for the schemas that the program uses
  pub classifications : (method : Option String) → Prompt → Call W (List DocClassification)
  pub fields : (method : Option String) (t : DocumentType) → Prompt → Call W (SchemaOf t)
  pub discrepancies : (method : Option String) → Prompt → Call W (List Discrepancy)
  -- str((await ainvoke(…)).content)
  pub content : Prompt → Call W String
  -- extraction.model_dump_json(indent=2)
  pub dump_json : ExtractionResult → String

abbrev pub max_doc_chars : ℕ
max_doc_chars = 6000

abbrev pub extracted_field_confidence : Score
extracted_field_confidence = percent 90

abbrev router_system : String
router_system =
    "You are a KYC document classifier for a fintech compliance pipeline. Classify every document into exactly one type: id_document, proof_of_address, business_registration, ubo_declaration or unknown. Use 'unknown' when the text is unreadable or fits no type. Return a classification for every document_id you were given."

abbrev extractor_system : String
extractor_system =
    "You are a KYC field extractor. Extract fields from the document text into the given schema. Rules: use null for any field you cannot find verbatim in the document — never guess or infer; copy values exactly as written; convert dates to ISO YYYY-MM-DD."

-- by_id: of two classifications with one id, the later.
unfoldable pub classifications_by_id :
    List (String × DocClassification) → List DocClassification → List (String × DocClassification)
classifications_by_id dict [] = dict
classifications_by_id dict (c ∷ cs) = classifications_by_id (put c.document_id c dict) cs

abbrev pub classified_as : InputDocument → Option DocClassification → ClassifiedDocument
classified_as doc none = record {
  document_id = doc.document_id;
  doc_type = unknown;
  classifier_confidence = 0;
}
classified_as doc (some item) = record {
  document_id = doc.document_id;
  doc_type = item.doc_type;
  classifier_confidence = item.confidence;
}

-- One entry for each document, in the order of the documents.
unfoldable pub classify_by : List DocClassification → List InputDocument → List ClassifiedDocument
unfolding classifications_by_id
classify_by answers documents =
    map (λ doc. classified_as doc (get doc.document_id (classifications_by_id [] answers)))
      documents

-- The extraction that comes of the fields which are not None.
unfoldable pub result_of_fields : (id : String) → DocumentType → Fields → ExtractionResult
result_of_fields id t [] = record {
  document_id = id;
  doc_type = t;
  fields = [];
  field_confidence = [];
  extraction_error = some "unreadable document: extractor found no fields";
}
result_of_fields id t (f ∷ fields) = record {
  document_id = id;
  doc_type = t;
  fields = f ∷ fields;
  field_confidence = map (λ x. (x.0, extracted_field_confidence)) (f ∷ fields);
  extraction_error = none;
}

module _ {A B : Type 0} where
  -- What is made of an awaited answer; an exception of the call passes through.
  abbrev pub map_outcome : (A → B) → Outcome A → Outcome B
  map_outcome f (value a) = value (f a)
  map_outcome f (raised exc) = raised exc

module _ {W A B : Type 0} where
  abbrev pub map_call : (A → B) → Call W A → Call W B
  map_call f call w = let (answer, w') = call w in (map_outcome f answer, w')

-- The KeyError of EXTRACTION_SCHEMA_BY_TYPE[DocumentType.UNKNOWN]
abbrev missing_schema : Exception
missing_schema = record { type_name = "KeyError"; message = "<DocumentType.UNKNOWN: 'unknown'>" }

module _ {W : Type 0} (py : Python) (model : ChatModel W) (method : Option String) where
  abbrev document_block : InputDocument → String
  document_block d = concat (
      "<document id="
      ∷ py.repr d.document_id
      ∷ " file="
      ∷ py.repr d.file_name
      ∷ ">\n"
      ∷ take_chars max_doc_chars d.text_content
      ∷ "\n</document>"
      ∷ [])

  unfoldable pub live_classify :
      List InputDocument → CustomerType → Call W (List ClassifiedDocument)
  unfolding classify_by
  live_classify documents customer =
      map_call (λ answers. classify_by answers documents)
        (model.classifications method (record {
          system = router_system;
          user = concat (
              "Customer type declared at registration: "
              ∷ customer_value customer
              ∷ ".\n\n"
              ∷ join "\n\n" (map document_block documents)
              ∷ []);
        }))

  -- The body behind the lookup of the schema.
  unfoldable pub extract_with : InputDocument → (t : DocumentType) → Call W ExtractionResult
  unfolding result_of_fields
  extract_with document t =
      map_call (λ r. result_of_fields document.document_id t (present (dump py t r)))
        (model.fields method t (record {
          system = extractor_system;
          user = concat (
              "Document type: "
              ∷ type_value t
              ∷ "\n\n"
              ∷ take_chars max_doc_chars document.text_content
              ∷ []);
        }))

  unfoldable pub live_extract : InputDocument → DocumentType → Call W ExtractionResult
  unfolding extract_with
  live_extract document unknown w = (raised missing_schema, w)
  live_extract document id_document w = extract_with document id_document w
  live_extract document proof_of_address w = extract_with document proof_of_address w
  live_extract document business_registration w = extract_with document business_registration w
  live_extract document ubo_declaration w = extract_with document ubo_declaration w
