-- ===== src/Schemas/Documents.antt =====
-- schemas/documents.py: document types, uploaded documents and the extracted fields.
use kyc_agent_nordvik.Prelude.{ℕ, String, Bool, Option, List, [], ◌∷◌, ◌==◌}
use kyc_agent_nordvik.Python.{Score}

pub data DocumentType : Type 0 where
  id_document proof_of_address business_registration ubo_declaration unknown : DocumentType

abbrev pub type_value : DocumentType → String
type_value id_document = "id_document"
type_value proof_of_address = "proof_of_address"
type_value business_registration = "business_registration"
type_value ubo_declaration = "ubo_declaration"
type_value unknown = "unknown"

-- a is b
abbrev pub same_type : DocumentType → DocumentType → Bool
same_type a b = type_value a == type_value b

pub record InputDocument : Type 0 where
  pub document_id : String
  pub file_name : String
  pub text_content : String

pub record ClassifiedDocument : Type 0 where
  pub document_id : String
  pub doc_type : DocumentType
  pub classifier_confidence : Score

-- One entry of `beneficial_owners`: a dictionary, whose keys may be missing.
pub record BeneficialOwner : Type 0 where
  pub full_name : Option String
  pub date_of_birth : Option String
  pub ownership_percent : Option ℕ

-- A value under a field name: both extractors put there a text or a list of owners.
pub data FieldValue : Type 0 where
  text : String → FieldValue
  owners : List BeneficialOwner → FieldValue

abbrev pub Fields : Type 0
Fields = List (String × FieldValue)

-- REQUIRED_FIELDS_BY_TYPE.get(doc_type, ())
abbrev pub required_fields : DocumentType → List String
required_fields id_document = "full_name" ∷ "date_of_birth" ∷ "document_number" ∷ "expiry_date" ∷ []
required_fields proof_of_address = "full_name" ∷ "address" ∷ []
required_fields business_registration = "company_name" ∷ "registration_number" ∷ []
required_fields ubo_declaration = "company_name" ∷ "beneficial_owners" ∷ []
required_fields unknown = []
