-- ===== src/Eval/Golden.antt =====
-- eval/generate_golden_set.py: the texts of the synthetic documents, the packages and the cases. A
-- dict with fixed keys is a record, a key that a dict may lack an Option.
pub mod Individuals
pub mod Escalations
pub mod Businesses
pub mod Cases
pub mod Routed
use kyc_agent_nordvik.Prelude.{
  ℕ, String, Bool, true, false, Option, none, some, List, [], ◌∷◌, concat, join, map,
}
use kyc_agent_nordvik.Python.{Python}
use kyc_agent_nordvik.Schemas.Documents.{InputDocument}
use kyc_agent_nordvik.Eval.Summary.{GoldenCase}

abbrev pub id_card : (name dob number expiry country nationality extra : String) → String
id_card name dob number expiry country nationality extra = concat (
    country ∷ "\nIDENTITY CARD\nFull name: " ∷ name ∷ "\nDate of birth: " ∷ dob
    ∷ "\nDocument number: " ∷ number ∷ "\nDate of expiry: " ∷ expiry ∷ "\nNationality: "
    ∷ nationality ∷ "\n" ∷ extra ∷ [])

abbrev pub registration_cert : (company number reg_date legal_form office : String) → String
registration_cert company number reg_date legal_form office = concat (
    "REPUBLIC OF ESTONIA — COMMERCIAL REGISTER\nCERTIFICATE OF REGISTRATION\n" ∷ "Company name: "
    ∷ company ∷ "\nRegistration number: " ∷ number ∷ "\nRegistration date: " ∷ reg_date
    ∷ "\nLegal form: " ∷ legal_form ∷ "\nRegistered office: " ∷ office ∷ "\n" ∷ [])

module _ (py : Python) where
  abbrev pub invoice : (name address issue issuer : String) → String
  invoice name address issue issuer = concat (
      py.upper issuer
      ∷ "\nELECTRICITY INVOICE\nCustomer: "
      ∷ name
      ∷ "\n"
      ∷ "Service address: "
      ∷ address
      ∷ "\nInvoice date: "
      ∷ issue
      ∷ "\nIssuer: "
      ∷ issuer
      ∷ "\n"
      ∷ [])

  abbrev pub bank_statement : (name address issue bank : String) → String
  bank_statement name address issue bank = concat (
      py.upper bank
      ∷ "\nBANK STATEMENT\nAccount holder: "
      ∷ name
      ∷ "\nAddress: "
      ∷ address
      ∷ "\n"
      ∷ "Statement date: "
      ∷ issue
      ∷ "\nIssuer: "
      ∷ bank
      ∷ "\n"
      ∷ [])

  abbrev owner_line : String × String × ℕ → String
  owner_line (n, d, p) =
      concat ("- " ∷ n ∷ "; born " ∷ d ∷ "; ownership " ∷ py.int_str p ∷ "%" ∷ [])

  abbrev pub ubo_declaration : (company : String) (owners : List (String × String × ℕ)) → String
  ubo_declaration company owners = concat (
      "UBO DECLARATION\nCompany name: "
      ∷ company
      ∷ "\nBeneficial owners:\n"
      ∷ join "\n" (map owner_line owners)
      ∷ "\n"
      ∷ [])

pub record ApplicantDict : Type 0 where
  pub full_name : String
  pub date_of_birth : Option String
  pub address : String
  pub company_name : Option String
  pub registration_number : Option String
  pub expected_monthly_volume_eur : ℕ

pub record PackageDict : Type 0 where
  pub customer_type : String
  pub applicant : ApplicantDict
  pub documents : List InputDocument

abbrev document_dict : (document_id file_name text_content : String) → InputDocument
document_dict document_id file_name text_content = record {
  document_id = document_id;
  file_name = file_name;
  text_content = text_content;
}

abbrev poa_document : Option String → List InputDocument
poa_document none = []
poa_document (some poa_text) = document_dict "doc-poa" "poa.pdf" poa_text ∷ []

abbrev pub individual_package :
    (name dob_iso address : String) (volume : ℕ) (id_text : String) (poa_text : Option String)
    → PackageDict
individual_package name dob_iso address volume id_text poa_text = record {
  customer_type = "individual";
  applicant = record {
    full_name = name;
    date_of_birth = some dob_iso;
    address = address;
    company_name = none;
    registration_number = none;
    expected_monthly_volume_eur = volume;
  };
  documents = document_dict "doc-id" "id.pdf" id_text ∷ poa_document poa_text;
}

abbrev pub business_package :
    (rep_name company reg_number address : String) (volume : ℕ) (cert_text ubo_text : String)
    → PackageDict
business_package rep_name company reg_number address volume cert_text ubo_text = record {
  customer_type = "business";
  applicant = record {
    full_name = rep_name;
    date_of_birth = none;
    address = address;
    company_name = some company;
    registration_number = some reg_number;
    expected_monthly_volume_eur = volume;
  };
  documents =
      document_dict "doc-reg" "registration.pdf" cert_text
      ∷ document_dict "doc-ubo" "ubo.pdf" ubo_text
      ∷ [];
}

pub record CaseDict : Type 0 where
  pub case_id : String
  pub description : String
  pub typical : Bool
  pub package' : PackageDict
  pub outcome : String
  pub decided_by : String
  pub escalation : Bool
  pub reason_codes_include : List String
  pub fields : List (String × List (String × String))

-- `fields or {}`
abbrev fields_or_empty :
    Option (List (String × List (String × String))) → List (String × List (String × String))
fields_or_empty none = []
fields_or_empty (some fields) = fields

abbrev pub case :
    (case_id description : String) (typical : Bool) (package' : PackageDict)
    (outcome decided_by : String) (escalation : Bool) (reason_codes_include : List String)
    (fields : Option (List (String × List (String × String))))
    → CaseDict
case case_id description typical package' outcome decided_by escalation reason_codes_include
      fields =
    record {
      case_id = case_id;
      description = description;
      typical = typical;
      package' = package';
      outcome = outcome;
      decided_by = decided_by;
      escalation = escalation;
      reason_codes_include = reason_codes_include;
      fields = fields_or_empty fields;
    }

abbrev pub garbage : String
garbage = "@@#%%!!~~ scan_error_0x00 ]]]===[[[ 9f8a7b6c partial bytes lost"

-- What `run_eval.py` reads of a case.
abbrev pub golden_of : CaseDict → GoldenCase
golden_of c = record {
  case_id = c.case_id;
  typical = c.typical;
  expected = record {
    outcome = c.outcome;
    escalation = c.escalation;
    reason_codes_include = c.reason_codes_include;
    fields = c.fields;
  };
}
