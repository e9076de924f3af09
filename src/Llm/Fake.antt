-- ===== src/Llm/Fake.antt =====
-- llm/fake.py: the deterministic services. The patterns of `re` are a parameter, `Patterns`, and so
-- is what `float` and `date` make of a text.
pub mod Evaluator
pub mod Grounding
use kyc_agent_nordvik.Prelude.{
  ℕ, String, Bool, true, false, not, ◌&&◌, ◌||◌, Option, none, some, List, [], ◌∷◌, ◌++◌, map,
  concat, join, get, put, any, nonempty, truthy, contains, ◌==◌, if◌then◌else◌,
}
use kyc_agent_nordvik.Python.{Python, Patterns, Score, percent, Date}
use kyc_agent_nordvik.Effects.{Exception, Outcome, value, raised, Call}
use kyc_agent_nordvik.Rules.Validation.{normalize_text}
use kyc_agent_nordvik.Schemas.Ids
use kyc_agent_nordvik.Schemas.Ids.{value as id_value}
use kyc_agent_nordvik.Schemas.Case.{CustomerType, ApplicantDeclared}
use kyc_agent_nordvik.Schemas.Documents.{
  DocumentType, id_document, proof_of_address, business_registration, ubo_declaration, unknown,
  type_value, InputDocument, ClassifiedDocument, BeneficialOwner, FieldValue, text, owners, Fields,
}
use kyc_agent_nordvik.Schemas.Decisions.{ExtractionResult, RuleFlag, critical, severity_value}

-- _TYPE_KEYWORDS
abbrev pub type_keywords : List (DocumentType × List String)
type_keywords =
    (ubo_declaration, "UBO DECLARATION" ∷ "BENEFICIAL OWNER" ∷ [])
    ∷ (
      business_registration,
      "CERTIFICATE OF REGISTRATION" ∷ "COMMERCIAL REGISTER" ∷ "BUSINESS REGISTRY" ∷ [],
    )
    ∷ (id_document, "IDENTITY CARD" ∷ "PASSPORT" ∷ "RESIDENCE PERMIT" ∷ [])
    ∷ (
      proof_of_address,
      "UTILITY" ∷ "INVOICE" ∷ "BANK STATEMENT" ∷ "ELECTRICITY" ∷ "LEASE AGREEMENT" ∷ [],
    )
    ∷ []

-- The entries of _LABELS for the fields of the type, in the order of _FIELDS_BY_TYPE.
abbrev pub labels_of : DocumentType → List (String × List String)
labels_of id_document =
    (
      "full_name",
      "full name" ∷ "name" ∷ "customer" ∷ "account holder" ∷ "surname and given names" ∷ [],
    )
    ∷ ("date_of_birth", "date of birth" ∷ "born" ∷ [])
    ∷ ("document_number", "document number" ∷ "card number" ∷ "passport number" ∷ [])
    ∷ ("expiry_date", "date of expiry" ∷ "expiry date" ∷ "valid until" ∷ [])
    ∷ ("nationality", "nationality" ∷ [])
    ∷ []
labels_of proof_of_address =
    (
      "full_name",
      "full name" ∷ "name" ∷ "customer" ∷ "account holder" ∷ "surname and given names" ∷ [],
    )
    ∷ ("address", "service address" ∷ "supply address" ∷ "address" ∷ [])
    ∷ ("issue_date", "invoice date" ∷ "issue date" ∷ "statement date" ∷ [])
    ∷ ("issuer", "issuer" ∷ [])
    ∷ []
labels_of business_registration =
    ("company_name", "company name" ∷ "legal name" ∷ [])
    ∷ ("registration_number", "registration number" ∷ "registry code" ∷ [])
    ∷ ("registration_date", "registration date" ∷ "registered on" ∷ [])
    ∷ ("legal_form", "legal form" ∷ [])
    ∷ ("registered_address", "registered office" ∷ "registered address" ∷ [])
    ∷ []
labels_of ubo_declaration = ("company_name", "company name" ∷ "legal name" ∷ []) ∷ []
labels_of unknown = []

-- field in _DATE_FIELDS
abbrev pub is_date_field : String → Bool
is_date_field field =
    field == "date_of_birth"
    || field == "expiry_date"
    || field == "issue_date"
    || field == "registration_date"

-- The first candidate with a keyword in the text.
unfoldable pub type_by_keywords : String → List (DocumentType × List String) → DocumentType × Score
type_by_keywords upper [] = (unknown, percent 20)
type_by_keywords upper ((candidate, keywords) ∷ rest) =
    if any (λ k. contains k upper) keywords
    then (candidate, percent 98)
    else type_by_keywords upper rest

-- The dictionaries `fields` and `confidence` of the extractor.
pub record Extracted : Type 0 where
  pub fields : Fields
  pub confidence : List (String × Score)

abbrev pub put_field : String → FieldValue → Extracted → Extracted
put_field name v e = record {
  fields = put name v e.fields;
  confidence = put name (percent 98) e.confidence;
}

abbrev pub put_present : String → Option FieldValue → Extracted → Extracted
put_present name none e = e
put_present name (some v) e = put_field name v e

-- `if not fields`
unfoldable pub fake_result :
    InputDocument → DocumentType → Fields → List (String × Score) → ExtractionResult
fake_result document t [] confidence = record {
  document_id = document.document_id;
  doc_type = t;
  fields = [];
  field_confidence = [];
  extraction_error = some "unreadable document: no recognizable fields";
}
fake_result document t (f ∷ fields) confidence = record {
  document_id = document.document_id;
  doc_type = t;
  fields = f ∷ fields;
  field_confidence = confidence;
  extraction_error = none;
}

abbrev pub put_owners : List BeneficialOwner → Extracted → Extracted
put_owners [] e = e
put_owners (o ∷ os) e = put_field "beneficial_owners" (owners (o ∷ os)) e

abbrev no_float : (py_repr : String → String) → String → Exception
no_float repr s = record {
  type_name = "ValueError";
  message = concat ("could not convert string to float: " ∷ repr s ∷ []);
}

module _ (py : Python) (re : Patterns) where
  abbrev pub fake_classified : InputDocument → ClassifiedDocument
  fake_classified doc =
      let (doc_type, confidence) = type_by_keywords (py.upper doc.text_content) type_keywords in
      record {
        document_id = doc.document_id;
        doc_type = doc_type;
        classifier_confidence = confidence;
      }

  unfoldable pub fake_classify :
      {W : Type 0} → List InputDocument → CustomerType → Call W (List ClassifiedDocument)
  unfolding type_by_keywords
  fake_classify documents customer w = (value (map fake_classified documents), w)

  abbrev pub iso_of : Option Date → Option String
  iso_of none = none
  iso_of (some d) = some (py.isoformat d)

  abbrev pub date_of_groups : Option (String × String × String) → Option String → Option String
  date_of_groups none other = other
  date_of_groups (some (y, m, d)) other = iso_of (py.make_date y m d)

  abbrev pub reversed : Option (String × String × String) → Option (String × String × String)
  reversed none = none
  reversed (some (d, m, y)) = some (y, m, d)

  unfoldable pub parse_date : String → Option String
  parse_date raw =
      let stripped = py.strip raw in
      date_of_groups (re.year_first stripped)
        (date_of_groups (reversed (re.day_first stripped)) none)

  abbrev stripped_or : Option String → Option String → Option String
  stripped_or none other = other
  stripped_or (some s) other = some (py.strip s)

  unfoldable pub find_label : String → List String → Option String
  find_label content [] = none
  find_label content (label ∷ labels) =
      stripped_or (re.label_value label content) (find_label content labels)

  abbrev pub text_or_none : Option String → Option FieldValue
  text_or_none none = none
  text_or_none (some s) = some (text s)

  abbrev pub field_value : String → Option String → Option FieldValue
  field_value field none = none
  field_value field (some raw) =
      if is_date_field field then text_or_none (parse_date raw) else some (text raw)

  -- The loop over the fields of the type.
  unfoldable pub label_fields : String → List (String × List String) → Extracted → Extracted
  unfolding parse_date find_label
  label_fields content [] e = e
  label_fields content ((field, labels) ∷ rest) e =
      label_fields content rest
        (put_present field (field_value field (find_label content labels)) e)

  -- The owners, or the ValueError of the first `float` that fails.
  owner_list : List (String × String × String) → Outcome (List BeneficialOwner)
  unfolding parse_date
  owner_list [] = value []
  owner_list ((name, dob, pct) ∷ lines) = elim (py.to_float pct) [
    | none ↦ raised (no_float py.repr pct)
    | some share ↦ elim (owner_list lines) [
      | raised exc ↦ raised exc
      | value rest ↦ value (
          record {
            full_name = some (py.strip name);
            date_of_birth = parse_date dob;
            ownership_percent = some share;
          }
          ∷ rest)
    ]
  ]

  unfoldable pub fake_owners : DocumentType → String → Outcome (List BeneficialOwner)
  unfolding owner_list
  fake_owners ubo_declaration content = owner_list (re.owner_lines content)
  fake_owners id_document content = value []
  fake_owners proof_of_address content = value []
  fake_owners business_registration content = value []
  fake_owners unknown content = value []

  unfoldable pub put_glitches : List (String × String) → Extracted → Extracted
  put_glitches [] e = e
  put_glitches ((field, v) ∷ glitches) e =
      put_glitches glitches (put_field field (text (py.strip v)) e)

  unfoldable pub extracted_with :
      InputDocument → DocumentType → List BeneficialOwner → ExtractionResult
  unfolding label_fields put_glitches fake_result
  extracted_with document t os =
      let content = document.text_content in
      let read = label_fields content (labels_of t) (record { fields = []; confidence = [] }) in
      let all = put_glitches (re.glitches content) (put_owners os read) in
      fake_result document t all.fields all.confidence

  abbrev pub result_with :
      InputDocument → DocumentType → Outcome (List BeneficialOwner) → Outcome ExtractionResult
  result_with document t (raised exc) = raised exc
  result_with document t (value os) = value (extracted_with document t os)

  unfoldable pub fake_extract :
      {W : Type 0} → InputDocument → DocumentType → Call W ExtractionResult
  unfolding fake_owners extracted_with
  fake_extract document t w = (result_with document t (fake_owners t document.text_content), w)
