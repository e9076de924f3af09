-- ===== src/Llm/Contract/Typed.antt =====
-- The fields of an extraction against the schemas of schemas/documents.py: which fields a document
-- type has, and which of them hold a text and which a list of owners.
use kyc_agent_nordvik.Prelude.{
  ◌≡◌, refl, String, Option, none, some, List, [], ◌∷◌, get, AllEntries,
}
use kyc_agent_nordvik.Python.{Python, Date}
use kyc_agent_nordvik.Schemas.Documents.{
  DocumentType, id_document, proof_of_address, business_registration, ubo_declaration, unknown,
  InputDocument, FieldValue, text, owners, Fields,
}
use kyc_agent_nordvik.Schemas.Decisions.{ExtractionResult}
use kyc_agent_nordvik.Schemas.Fields.{SchemaOf, present, dump, text_value, date_value}
use kyc_agent_nordvik.Llm.Live.{ChatModel, result_of_fields, extract_with, live_extract}
use kyc_agent_nordvik.Llm.Contract.{Answers}
use kyc_agent_nordvik.Llm.Contract.LiveServices.{Answers-map}

pub data FieldKind : Type 0 where
  a_text a_list_of_owners : FieldKind

abbrev pub kind_of : FieldValue → FieldKind
kind_of (text s) = a_text
kind_of (owners os) = a_list_of_owners

abbrev pub schema : DocumentType → List (String × FieldKind)
schema id_document =
    ("full_name", a_text)
    ∷ ("date_of_birth", a_text)
    ∷ ("document_number", a_text)
    ∷ ("expiry_date", a_text)
    ∷ ("nationality", a_text)
    ∷ []
schema proof_of_address =
    ("full_name", a_text) ∷ ("address", a_text) ∷ ("issue_date", a_text) ∷ ("issuer", a_text) ∷ []
schema business_registration =
    ("company_name", a_text)
    ∷ ("registration_number", a_text)
    ∷ ("registration_date", a_text)
    ∷ ("legal_form", a_text)
    ∷ ("registered_address", a_text)
    ∷ []
schema ubo_declaration = ("company_name", a_text) ∷ ("beneficial_owners", a_list_of_owners) ∷ []
schema unknown = []

-- A field of the type, with a value of its kind.
abbrev pub IsTyped : DocumentType → String → FieldValue → Type 0
IsTyped t field v = get field (schema t) ≡ some (kind_of v)

abbrev pub WellTyped : DocumentType → ExtractionResult → Type 0
WellTyped t r = (r.doc_type ≡ t) × AllEntries (IsTyped t) r.fields

abbrev AllTypedIf : DocumentType → List (String × Option FieldValue) → Type 0
AllTypedIf t [] = Unit
AllTypedIf t ((field, none) ∷ d) = AllTypedIf t d
AllTypedIf t ((field, some v) ∷ d) = IsTyped t field v × AllTypedIf t d

present-IsTyped :
    (t : DocumentType) (d : List (String × Option FieldValue))
    → AllTypedIf t d
    → AllEntries (IsTyped t) (present d)
present-IsTyped t [] h = tt
present-IsTyped t ((field, none) ∷ d) h = present-IsTyped t d h
present-IsTyped t ((field, some v) ∷ d) h = (h.0, present-IsTyped t d h.1)

cons_text :
    (t : DocumentType) (field : String) (o : Option String) (d : List (String × Option FieldValue))
    → get field (schema t) ≡ some a_text
    → AllTypedIf t d
    → AllTypedIf t ((field, text_value o) ∷ d)
cons_text t field none d e h = h
cons_text t field (some s) d e h = (e, h)

cons_date :
    (py : Python) (t : DocumentType) (field : String) (o : Option Date)
    (d : List (String × Option FieldValue))
    → get field (schema t) ≡ some a_text
    → AllTypedIf t d
    → AllTypedIf t ((field, date_value py o) ∷ d)
cons_date py t field none d e h = h
cons_date py t field (some s) d e h = (e, h)

dump-typed : (py : Python) (t : DocumentType) (r : SchemaOf t) → AllTypedIf t (dump py t r)
dump-typed py id_document r = cons_text id_document "full_name" r.full_name _ refl (
    cons_date py id_document "date_of_birth" r.date_of_birth _ refl (
      cons_text id_document "document_number" r.document_number _ refl (
        cons_date py id_document "expiry_date" r.expiry_date _ refl
          (cons_text id_document "nationality" r.nationality [] refl tt))))
dump-typed py proof_of_address r = cons_text proof_of_address "full_name" r.full_name _ refl (
    cons_text proof_of_address "address" r.address _ refl (
      cons_date py proof_of_address "issue_date" r.issue_date _ refl
        (cons_text proof_of_address "issuer" r.issuer [] refl tt)))
dump-typed py business_registration r =
    cons_text business_registration "company_name" r.company_name _ refl (
      cons_text business_registration "registration_number" r.registration_number _ refl (
        cons_date py business_registration "registration_date" r.registration_date _ refl (
          cons_text business_registration "legal_form" r.legal_form _ refl (
            cons_text business_registration "registered_address" r.registered_address [] refl tt))))
dump-typed py ubo_declaration r =
    cons_text ubo_declaration "company_name" r.company_name _ refl (refl, tt)
dump-typed py unknown r = absurd r

result-WellTyped :
    (id : String) (t : DocumentType) (fields : Fields)
    → AllEntries (IsTyped t) fields
    → WellTyped t (result_of_fields id t fields)
unfolding result_of_fields
result-WellTyped id t [] h = (refl, h)
result-WellTyped id t (f ∷ fields) h = (refl, h)

module _ {W : Type 0} (py : Python) (model : ChatModel W) (method : Option String) where
  extract_with-WellTyped :
      (document : InputDocument) (t : DocumentType) (w : W)
      → Answers (WellTyped t) (extract_with py model method document t w).0
  unfolding extract_with
  extract_with-WellTyped document t w = Answers-map (WellTyped t) _ _ (λ r.
      result-WellTyped document.document_id t _
        (present-IsTyped t (dump py t r) (dump-typed py t r)))

  -- Whatever the model answers, an extraction of the live extractor has the type that was asked for,
  -- and each of its fields is a field of this type's schema and holds a value of the field's kind: a
  -- list of owners in `beneficial_owners` of a UBO declaration, a text in every other.
  pub live_extract-WellTyped :
      (document : InputDocument) (t : DocumentType) (w : W)
      → Answers (WellTyped t) (live_extract py model method document t w).0
  unfolding live_extract
  live_extract-WellTyped document unknown w = tt
  live_extract-WellTyped document id_document w = extract_with-WellTyped document id_document w
  live_extract-WellTyped document proof_of_address w =
      extract_with-WellTyped document proof_of_address w
  live_extract-WellTyped document business_registration w =
      extract_with-WellTyped document business_registration w
  live_extract-WellTyped document ubo_declaration w =
      extract_with-WellTyped document ubo_declaration w
