-- ===== src/Llm/Contract/FakeServices.antt =====
-- The deterministic services, against what the nodes rely on.
use kyc_agent_nordvik.Prelude.{
  ◌≡◌, refl, ap, inl, inr, String, Bool, true, false, ◌||◌, Option, none, some, List, [], ◌∷◌, map,
  any, AllEntries, AllEntries-put, arith, ◌==◌, Bool-cases,
}
use kyc_agent_nordvik.Python.{Python, Patterns, PrintsDates, Date, Score}
use kyc_agent_nordvik.Effects.{Outcome, value, raised}
use kyc_agent_nordvik.Llm.Fake.{
  Extracted, put_field, put_present, put_owners, fake_result, fake_classified, fake_classify,
  iso_of, date_of_groups, reversed, parse_date, find_label, field_value, label_fields, fake_owners,
  put_glitches, extracted_with, result_with, fake_extract, labels_of, is_date_field, text_or_none,
}
use kyc_agent_nordvik.Llm.Contract.{Answers, Covers, Reads, Classifies, Extracts}
use kyc_agent_nordvik.Rules.Validation.Reading.{IsUsable, usable-IsReadable, isoformat-IsUsable}
use kyc_agent_nordvik.Schemas.Documents.{
  DocumentType, InputDocument, Fields, FieldValue, text, owners, BeneficialOwner,
}

module _ (py : Python) (re : Patterns) where
  classified-Covers :
      (documents : List InputDocument) → Covers documents (map (fake_classified py re) documents)
  classified-Covers [] = refl
  classified-Covers (d ∷ documents) = ap (λ l. d.document_id ∷ l) (classified-Covers documents)

  -- Each document gets one classification, in the order of the documents.
  pub fake_classify-Classifies : {W : Type 0} → Classifies {W = W} py (fake_classify py re)
  unfolding fake_classify
  fake_classify-Classifies documents customer w = classified-Covers documents

  -- What a date parses to is usable anywhere.
  abbrev DateUsable : Option String → Type 0
  DateUsable none = Unit
  DateUsable (some s) = (field : String) → IsUsable py field (text s)

  iso_usable : PrintsDates py → (d : Option Date) → DateUsable (iso_of py re d)
  iso_usable dates none = tt
  iso_usable dates (some d) = λ field. isoformat-IsUsable py field d dates

  groups_usable :
      PrintsDates py
      → (groups : Option (String × String × String)) (other : Option String) → DateUsable other
      → DateUsable (date_of_groups py re groups other)
  groups_usable dates none other h = h
  groups_usable dates (some (y, m, d)) other h = iso_usable dates (py.make_date y m d)

  parse_usable : PrintsDates py → (raw : String) → DateUsable (parse_date py re raw)
  unfolding parse_date
  parse_usable dates raw =
      groups_usable dates _ _
        (groups_usable dates (reversed py re (re.day_first (py.strip raw))) none tt)

  abbrev AllUsable : Extracted → Type 0
  AllUsable e = AllEntries (IsUsable py) e.fields

  put_field-usable :
      (field : String) (v : FieldValue) (e : Extracted)
      → IsUsable py field v
      → AllUsable e
      → AllUsable (put_field field v e)
  put_field-usable field v e h all = AllEntries-put (IsUsable py) field v e.fields h all

  date_field_usable :
      (field : String) (o : Option String) (e : Extracted)
      → DateUsable o
      → AllUsable e
      → AllUsable (put_present field (text_or_none py re o) e)
  date_field_usable field none e h all = all
  date_field_usable field (some s) e h all = put_field-usable field (text s) e (h field) all

  no_expiry : (field : String) → is_date_field field ≡ false → (field == "expiry_date") ≡ true → ⊥
  no_expiry field d x = ground (arith, d, x)

  field_usable :
      PrintsDates py
      → (field : String) (raw : Option String) (e : Extracted) → AllUsable e
      → AllUsable (put_present field (field_value py re field raw) e)
  field_usable dates field none e all = all
  field_usable dates field (some raw) e all = elim (Bool-cases (is_date_field field)) [
    | inl d ↦ rw d (date_field_usable field (parse_date py re raw) e (parse_usable dates raw) all)
    | inr d ↦ rw d (put_field-usable field (text raw) e (λ x. absurd (no_expiry field d x)) all)
  ]

  label_fields-usable :
      PrintsDates py
      → (content : String) (labels : List (String × List String)) (e : Extracted) → AllUsable e
      → AllUsable (label_fields py re content labels e)
  unfolding label_fields
  label_fields-usable dates content [] e all = all
  label_fields-usable dates content ((field, names) ∷ labels) e all =
      label_fields-usable dates content labels _
        (field_usable dates field (find_label py re content names) e all)

  owners_usable :
      (os : List BeneficialOwner) (e : Extracted) → AllUsable e → AllUsable (put_owners os e)
  owners_usable [] e all = all
  owners_usable (o ∷ os) e all = put_field-usable "beneficial_owners" (owners (o ∷ os)) e refl all

  -- No marker stands for an expiry date.
  abbrev pub KeepsExpiry : InputDocument → Type 0
  KeepsExpiry document = any (λ g. g.0 == "expiry_date") (re.glitches document.text_content) ≡ false

  no_marker :
      (field : String) (b : Bool)
      → (field == "expiry_date" || b) ≡ false
      → (field == "expiry_date") ≡ true
      → ⊥
  no_marker field b h x = ground (arith, h, x)

  glitches_usable :
      (glitches : List (String × String)) (e : Extracted)
      → any (λ g. g.0 == "expiry_date") glitches ≡ false
      → AllUsable e
      → AllUsable (put_glitches py re glitches e)
  unfolding put_glitches
  glitches_usable [] e h all = all
  glitches_usable ((field, v) ∷ glitches) e h all = glitches_usable glitches _ (ground (arith, h)) (
      put_field-usable field (text (py.strip v)) e
        (λ x. absurd (no_marker field (any (λ g. g.0 == "expiry_date") glitches) h x)) all)

  result-Reads :
      (document : InputDocument) (t : DocumentType) (fields : Fields)
      (confidence : List (String × Score))
      → AllEntries (IsUsable py) fields
      → Reads py document t (fake_result document t fields confidence)
  unfolding fake_result
  result-Reads document t [] confidence h = (refl, refl, usable-IsReadable py [] h)
  result-Reads document t (f ∷ fields) confidence h =
      (refl, refl, usable-IsReadable py (f ∷ fields) h)

  outcome-Reads :
      (document : InputDocument) (t : DocumentType) (o : Outcome (List BeneficialOwner))
      → PrintsDates py
      → KeepsExpiry document
      → Answers (Reads py document t) (result_with py re document t o)
  unfolding extracted_with
  outcome-Reads document t (raised exc) dates h = tt
  outcome-Reads document t (value os) dates h = result-Reads document t _ _ (
      glitches_usable (re.glitches document.text_content) _ h
        (owners_usable os _ (label_fields-usable dates document.text_content (labels_of t) _ tt)))

  -- If dates are printed as they are read and the document has no marker for an expiry date, then an
  -- extraction is about its document and its type, and the rules can read its fields.
  pub fake_extract-Extracts :
      PrintsDates py
      → (document : InputDocument) → KeepsExpiry document
      → {W : Type 0} → Extracts {W = W} py (fake_extract py re) document
  unfolding fake_extract
  fake_extract-Extracts dates document h t w =
      outcome-Reads document t (fake_owners py re t document.text_content) dates h
