-- ===== src/Schemas/Case.antt =====
-- schemas/case.py: the package that a customer submits, and the statuses of a case.
use kyc_agent_nordvik.Prelude.{ℕ, String, Option, List, [], ◌∷◌}
use kyc_agent_nordvik.Python.{Date}
use kyc_agent_nordvik.Schemas.Documents.{
  DocumentType, InputDocument, id_document, proof_of_address, business_registration,
  ubo_declaration,
}

pub data CustomerType : Type 0 where
  individual business : CustomerType

abbrev pub customer_value : CustomerType → String
customer_value individual = "individual"
customer_value business = "business"

pub data CaseStatus : Type 0 where
  received processing awaiting_human_review completed failed : CaseStatus

-- A `Decimal` amount is a whole number of the smallest fraction of a euro that the amounts use.
abbrev pub Amount : Type 0
Amount = ℕ

abbrev pub euro : Amount
euro = 1000000

pub record ApplicantDeclared : Type 0 where
  pub full_name : String
  pub date_of_birth : Option Date
  pub address : String
  pub company_name : Option String
  pub registration_number : Option String
  pub expected_monthly_volume_eur : Amount

pub record KycPackage : Type 0 where
  pub customer_type : CustomerType
  pub applicant : ApplicantDeclared
  pub documents : List InputDocument

-- REQUIRED_DOCS_BY_CUSTOMER: a set, listed in the order of its texts.
abbrev pub required_docs : CustomerType → List DocumentType
required_docs individual = id_document ∷ proof_of_address ∷ []
required_docs business = business_registration ∷ ubo_declaration ∷ []
