-- ===== src/Schemas/Fields.antt =====
-- schemas/documents.py: the structured-output schema of each document type, and what its
-- `model_dump(mode="json")` gives.
use mathlib.Core.Option
use kyc_agent_nordvik.Prelude.{String, Option, none, some, List, [], ◌∷◌, map}
use kyc_agent_nordvik.Python.{Python, Score, Date}
use kyc_agent_nordvik.Schemas.Documents.{
  DocumentType, id_document, proof_of_address, business_registration, ubo_declaration, unknown,
  FieldValue, text, owners, BeneficialOwner, Fields,
}

pub record IndividualIdFields : Type 0 where
  pub full_name : Option String
  pub date_of_birth : Option Date
  pub document_number : Option String
  pub expiry_date : Option Date
  pub nationality : Option String

pub record ProofOfAddressFields : Type 0 where
  pub full_name : Option String
  pub address : Option String
  pub issue_date : Option Date
  pub issuer : Option String

pub record BusinessRegistrationFields : Type 0 where
  pub company_name : Option String
  pub registration_number : Option String
  pub registration_date : Option Date
  pub legal_form : Option String
  pub registered_address : Option String

-- The model `BeneficialOwner`; the record of that name here is its dictionary.
pub record OwnerFields : Type 0 where
  pub full_name : String
  pub date_of_birth : Option Date
  pub ownership_percent : Option Score

pub record UboDeclarationFields : Type 0 where
  pub company_name : Option String
  pub beneficial_owners : List OwnerFields

-- EXTRACTION_SCHEMA_BY_TYPE, which has no entry for `unknown`
abbrev pub SchemaOf : DocumentType → Type 0
SchemaOf id_document = IndividualIdFields
SchemaOf proof_of_address = ProofOfAddressFields
SchemaOf business_registration = BusinessRegistrationFields
SchemaOf ubo_declaration = UboDeclarationFields
SchemaOf unknown = ⊥

-- {k: v for k, v in dump.items() if v is not None}
abbrev pub present : List (String × Option FieldValue) → Fields
present [] = []
present ((k, none) ∷ dump) = present dump
present ((k, some v) ∷ dump) = (k, v) ∷ present dump

abbrev pub text_value : Option String → Option FieldValue
text_value none = none
text_value (some s) = some (text s)

module _ (py : Python) where
  abbrev pub date_value : Option Date → Option FieldValue
  date_value none = none
  date_value (some d) = some (text (py.isoformat d))

  abbrev pub dump_owner : OwnerFields → BeneficialOwner
  dump_owner o = record {
    full_name = some o.full_name;
    date_of_birth = Option.map py.isoformat o.date_of_birth;
    ownership_percent = o.ownership_percent;
  }

  abbrev pub dump : (t : DocumentType) → SchemaOf t → List (String × Option FieldValue)
  dump id_document r =
      ("full_name", text_value r.full_name)
      ∷ ("date_of_birth", date_value r.date_of_birth)
      ∷ ("document_number", text_value r.document_number)
      ∷ ("expiry_date", date_value r.expiry_date)
      ∷ ("nationality", text_value r.nationality)
      ∷ []
  dump proof_of_address r =
      ("full_name", text_value r.full_name)
      ∷ ("address", text_value r.address)
      ∷ ("issue_date", date_value r.issue_date)
      ∷ ("issuer", text_value r.issuer)
      ∷ []
  dump business_registration r =
      ("company_name", text_value r.company_name)
      ∷ ("registration_number", text_value r.registration_number)
      ∷ ("registration_date", date_value r.registration_date)
      ∷ ("legal_form", text_value r.legal_form)
      ∷ ("registered_address", text_value r.registered_address)
      ∷ []
  dump ubo_declaration r =
      ("company_name", text_value r.company_name)
      ∷ ("beneficial_owners", some (owners (map dump_owner r.beneficial_owners)))
      ∷ []
  dump unknown r = absurd r
