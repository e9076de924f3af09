-- ===== src/Llm/Contract/LiveServices.antt =====
-- The services on a chat model, against what the nodes rely on.
use kyc_agent_nordvik.Prelude.{
  ◌≡◌, refl, ap, String, false, Option, none, some, List, [], ◌∷◌, map, get, AllEntries, ◌==◌,
}
use kyc_agent_nordvik.Python.{Python, PrintsDates, Date}
use kyc_agent_nordvik.Effects.{Outcome, value, raised}
use kyc_agent_nordvik.Llm.Live.{
  ChatModel, classifications_by_id, classified_as, DocClassification, classify_by, result_of_fields,
  map_outcome, live_classify, extract_with, live_extract,
}
use kyc_agent_nordvik.Llm.Contract.{Answers, Covers, Reads, Classifies, Extracts}
use kyc_agent_nordvik.Rules.Validation.Reading.{IsUsable, usable-IsReadable, isoformat-IsUsable}
use kyc_agent_nordvik.Schemas.Documents.{
  DocumentType, id_document, proof_of_address, business_registration, ubo_declaration, unknown,
  InputDocument, ClassifiedDocument, Fields, FieldValue,
}
use kyc_agent_nordvik.Schemas.Fields.{SchemaOf, present, dump, text_value, date_value}

pub Answers-map :
    {A B : Type 0} (P : B → Type 0) (f : A → B) (o : Outcome A)
    → ((a : A) → P (f a))
    → Answers P (map_outcome f o)
Answers-map P f (value a) h = h a
Answers-map P f (raised exc) h = tt

cons_ids :
    (o : Option DocClassification) (d : InputDocument) (cl : List ClassifiedDocument)
    (documents : List InputDocument)
    → Covers documents cl
    → Covers (d ∷ documents) (classified_as d o ∷ cl)
cons_ids none d cl documents h = ap (λ l. d.document_id ∷ l) h
cons_ids (some item) d cl documents h = ap (λ l. d.document_id ∷ l) h

map_ids :
    (dict : List (String × DocClassification)) (documents : List InputDocument)
    → Covers documents (map (λ doc. classified_as doc (get doc.document_id dict)) documents)
map_ids dict [] = refl
map_ids dict (d ∷ documents) = cons_ids (get d.document_id dict) d _ _ (map_ids dict documents)

classify_by-Covers :
    (answers : List DocClassification) (documents : List InputDocument)
    → Covers documents (classify_by answers documents)
unfolding classify_by
classify_by-Covers answers documents = map_ids (classifications_by_id [] answers) documents

fields_of_result :
    (id : String) (t : DocumentType) (fields : Fields)
    → (result_of_fields id t fields).fields ≡ fields
unfolding result_of_fields
fields_of_result id t [] = refl
fields_of_result id t (f ∷ fields) = refl

-- What `present` keeps of a dump.
abbrev IsUsableIf : Python → String → Option FieldValue → Type 0
IsUsableIf py field none = Unit
IsUsableIf py field (some v) = IsUsable py field v

abbrev AllUsableIf : Python → List (String × Option FieldValue) → Type 0
AllUsableIf py [] = Unit
AllUsableIf py ((field, o) ∷ dump) = IsUsableIf py field o × AllUsableIf py dump

present-IsUsable :
    (py : Python) (d : List (String × Option FieldValue))
    → AllUsableIf py d
    → AllEntries (IsUsable py) (present d)
present-IsUsable py [] h = tt
present-IsUsable py ((field, none) ∷ d) h = present-IsUsable py d h.1
present-IsUsable py ((field, some v) ∷ d) h = (h.0, present-IsUsable py d h.1)

module _ (py : Python) (dates : PrintsDates py) where
  text_usable :
      (field : String) (o : Option String)
      → (field == "expiry_date") ≡ false
      → IsUsableIf py field (text_value o)
  text_usable field none h = tt
  text_usable field (some s) h = λ e. cc

  date_usable : (field : String) (o : Option Date) → IsUsableIf py field (date_value py o)
  date_usable field none = tt
  date_usable field (some d) = isoformat-IsUsable py field d dates

  dump_usable : (t : DocumentType) (r : SchemaOf t) → AllUsableIf py (dump py t r)
  dump_usable id_document r = (
    text_usable "full_name" r.full_name refl,
    (
      date_usable "date_of_birth" r.date_of_birth,
      (
        text_usable "document_number" r.document_number refl,
        (
          date_usable "expiry_date" r.expiry_date,
          (text_usable "nationality" r.nationality refl, tt),
        ),
      ),
    ),
  )
  dump_usable proof_of_address r = (
    text_usable "full_name" r.full_name refl,
    (
      text_usable "address" r.address refl,
      (date_usable "issue_date" r.issue_date, (text_usable "issuer" r.issuer refl, tt)),
    ),
  )
  dump_usable business_registration r = (
    text_usable "company_name" r.company_name refl,
    (
      text_usable "registration_number" r.registration_number refl,
      (
        date_usable "registration_date" r.registration_date,
        (
          text_usable "legal_form" r.legal_form refl,
          (text_usable "registered_address" r.registered_address refl, tt),
        ),
      ),
    ),
  )
  dump_usable ubo_declaration r = (text_usable "company_name" r.company_name refl, (refl, tt))
  dump_usable unknown r = absurd r

  result-Reads :
      (document : InputDocument) (t : DocumentType) (fields : Fields)
      → AllEntries (IsUsable py) fields
      → Reads py document t (result_of_fields document.document_id t fields)
  unfolding result_of_fields
  result-Reads document t [] h = (refl, refl, usable-IsReadable py [] h)
  result-Reads document t (f ∷ fields) h = (refl, refl, usable-IsReadable py (f ∷ fields) h)

ubo_found :
    (company : Option String) (v : FieldValue) (id : String)
    → (result_of_fields id ubo_declaration (
        present (
          ("company_name", text_value company)
          ∷ ("beneficial_owners", some v)
          ∷ []))).extraction_error
      ≡ none
unfolding result_of_fields
ubo_found none v id = refl
ubo_found (some c) v id = refl

module _ {W : Type 0} (py : Python) (model : ChatModel W) (method : Option String) where
  -- Whatever the model answers, each document gets one classification, in the order of the
  -- documents.
  pub live_classify-Classifies : Classifies py (live_classify py model method)
  unfolding live_classify
  live_classify-Classifies documents customer w =
      Answers-map (Covers documents) (λ answers. classify_by answers documents) _
        (λ answers. classify_by-Covers answers documents)

  extract_with-Reads :
      (document : InputDocument) (t : DocumentType) (w : W)
      → PrintsDates py
      → Answers (Reads py document t) (extract_with py model method document t w).0
  unfolding extract_with
  extract_with-Reads document t w dates =
      Answers-map (Reads py document t) _ _
        (λ r. result-Reads py dates document t _ (present-IsUsable py _ (dump_usable py dates t r)))

  -- If dates are printed as they are read, then whatever the model answers, an extraction is about
  -- its document and its type, and the rules can read its fields.
  pub live_extract-Extracts :
      PrintsDates py
      → (document : InputDocument) → Extracts py (live_extract py model method) document
  unfolding live_extract
  live_extract-Extracts dates document unknown w = tt
  live_extract-Extracts dates document id_document w =
      extract_with-Reads document id_document w dates
  live_extract-Extracts dates document proof_of_address w =
      extract_with-Reads document proof_of_address w dates
  live_extract-Extracts dates document business_registration w =
      extract_with-Reads document business_registration w dates
  live_extract-Extracts dates document ubo_declaration w =
      extract_with-Reads document ubo_declaration w dates

  -- What the live extractor answers for a UBO declaration never has an extraction error, whatever
  -- the model finds in it.
  pub live_extract-ubo_error :
      (document : InputDocument) (w : W)
      → Answers
          (λ r. r.extraction_error ≡ none)
          (live_extract py model method document ubo_declaration w).0
  unfolding live_extract extract_with result_of_fields
  live_extract-ubo_error document w =
      Answers-map (λ r. r.extraction_error ≡ none) _ _ (λ r. ubo_found r.company_name _ _)
