-- ===== src/Llm/Contract/TypedFake.antt =====
-- The extractions of the deterministic extractor against the schemas of schemas/documents.py.
use kyc_agent_nordvik.Prelude.{
  ◌≡◌, refl, String, Bool, true, false, Option, none, some, List, [], ◌∷◌, get, AllEntries,
  AllEntries-put, All, if◌then◌else◌,
}
use kyc_agent_nordvik.Python.{Python, Patterns}
use kyc_agent_nordvik.Effects.{Outcome, value, raised}
use kyc_agent_nordvik.Schemas.Documents.{
  DocumentType, id_document, proof_of_address, business_registration, ubo_declaration, unknown,
  InputDocument, FieldValue, text, owners, Fields, BeneficialOwner,
}
use kyc_agent_nordvik.Llm.Fake.{
  Extracted, put_present, put_owners, fake_result, text_or_none, field_value, parse_date,
  find_label, labels_of, label_fields, put_glitches, extracted_with, result_with, fake_owners,
  fake_extract, is_date_field,
}
use kyc_agent_nordvik.Llm.Contract.{Answers}
use kyc_agent_nordvik.Llm.Contract.Typed.{schema, a_text, IsTyped, WellTyped}

abbrev IsTextOf : DocumentType → String × List String → Type 0
IsTextOf t entry = get entry.0 (schema t) ≡ some a_text

labels_of-IsTextOf : (t : DocumentType) → All (IsTextOf t) (labels_of t)
labels_of-IsTextOf id_document = (refl, (refl, (refl, (refl, (refl, tt)))))
labels_of-IsTextOf proof_of_address = (refl, (refl, (refl, (refl, tt))))
labels_of-IsTextOf business_registration = (refl, (refl, (refl, (refl, (refl, tt)))))
labels_of-IsTextOf ubo_declaration = (refl, tt)
labels_of-IsTextOf unknown = tt

abbrev IsTextIf : Option FieldValue → Type 0
IsTextIf none = Unit
IsTextIf (some (text s)) = Unit
IsTextIf (some (owners os)) = ⊥

fake_result-WellTyped :
    (document : InputDocument) (t : DocumentType) (fields : Fields) (confidence : _)
    → AllEntries (IsTyped t) fields
    → WellTyped t (fake_result document t fields confidence)
unfolding fake_result
fake_result-WellTyped document t [] confidence h = (refl, h)
fake_result-WellTyped document t (f ∷ fields) confidence h = (refl, h)

module _ (py : Python) (re : Patterns) where
  text_or_none-IsTextIf : (o : Option String) → IsTextIf (text_or_none py re o)
  text_or_none-IsTextIf none = tt
  text_or_none-IsTextIf (some s) = tt

  if-IsTextIf :
      (b : Bool) (o p : Option FieldValue) → IsTextIf o → IsTextIf p → IsTextIf (if b then o else p)
  if-IsTextIf true o p h k = h
  if-IsTextIf false o p h k = k

  field_value-IsTextIf : (field : String) (o : Option String) → IsTextIf (field_value py re field o)
  field_value-IsTextIf field none = tt
  field_value-IsTextIf field (some raw) =
      if-IsTextIf (is_date_field field) _ (some (text raw))
        (text_or_none-IsTextIf (parse_date py re raw)) tt

  put_present-IsTyped :
      (t : DocumentType) (field : String) (o : Option FieldValue) (e : Extracted)
      → get field (schema t) ≡ some a_text
      → IsTextIf o
      → AllEntries (IsTyped t) e.fields
      → AllEntries (IsTyped t) (put_present field o e).fields
  put_present-IsTyped t field none e h k all = all
  put_present-IsTyped t field (some (text s)) e h k all =
      AllEntries-put (IsTyped t) field (text s) e.fields h all
  put_present-IsTyped t field (some (owners os)) e h k all = absurd k

  label_fields-IsTyped :
      (t : DocumentType) (content : String) (labels : List (String × List String)) (e : Extracted)
      → All (IsTextOf t) labels
      → AllEntries (IsTyped t) e.fields
      → AllEntries (IsTyped t) (label_fields py re content labels e).fields
  unfolding label_fields
  label_fields-IsTyped t content [] e h all = all
  label_fields-IsTyped t content ((field, labels) ∷ rest) e (h, hs) all =
      label_fields-IsTyped t content rest _ hs (
        put_present-IsTyped t field _ e h
          (field_value-IsTextIf field (find_label py re content labels)) all)

  extracted_with-WellTyped :
      (document : InputDocument) (t : DocumentType) (os : List BeneficialOwner)
      → re.glitches document.text_content ≡ []
      → ((e : Extracted)
          → AllEntries (IsTyped t) e.fields
          → AllEntries (IsTyped t) (put_owners os e).fields)
      → WellTyped t (extracted_with py re document t os)
  unfolding extracted_with put_glitches
  extracted_with-WellTyped document t os none_there owned = rw none_there (
      fake_result-WellTyped document t _ _ (
        owned _
          (label_fields-IsTyped t document.text_content (labels_of t) _ (labels_of-IsTextOf t) tt)))

  put_owners-ubo :
      (os : List BeneficialOwner) (e : Extracted)
      → AllEntries (IsTyped ubo_declaration) e.fields
      → AllEntries (IsTyped ubo_declaration) (put_owners os e).fields
  put_owners-ubo [] e h = h
  put_owners-ubo (o ∷ os) e h =
      AllEntries-put (IsTyped ubo_declaration) "beneficial_owners" (owners (o ∷ os)) e.fields refl h

  ubo-WellTyped :
      (document : InputDocument) (o : Outcome (List BeneficialOwner))
      → re.glitches document.text_content ≡ []
      → Answers (WellTyped ubo_declaration) (result_with py re document ubo_declaration o)
  ubo-WellTyped document (raised exc) h = tt
  ubo-WellTyped document (value os) h =
      extracted_with-WellTyped document ubo_declaration os h (put_owners-ubo os)

  -- If a document has no marker for an injected misreading, then an extraction of the deterministic
  -- extractor has the type that was asked for, and each of its fields is a field of this type's schema
  -- and holds a value of the field's kind.
  pub fake_extract-WellTyped :
      {W : Type 0} (document : InputDocument) (t : DocumentType) (w : W)
      → re.glitches document.text_content ≡ []
      → Answers (WellTyped t) (fake_extract py re document t w).0
  unfolding fake_extract fake_owners
  fake_extract-WellTyped document id_document w h =
      extracted_with-WellTyped document id_document [] h (λ e k. k)
  fake_extract-WellTyped document proof_of_address w h =
      extracted_with-WellTyped document proof_of_address [] h (λ e k. k)
  fake_extract-WellTyped document business_registration w h =
      extracted_with-WellTyped document business_registration [] h (λ e k. k)
  fake_extract-WellTyped document ubo_declaration w h = ubo-WellTyped document _ h
  fake_extract-WellTyped document unknown w h =
      extracted_with-WellTyped document unknown [] h (λ e k. k)
