-- ===== src/Rules/Validation/Reading.antt =====
-- When rules/validation.py can read a dictionary of fields.
use kyc_agent_nordvik.Prelude.{
  ◌≡◌, refl, subst, inl, inr, String, Bool, true, false, ◌||◌, some, List, [], ◌∷◌, get, AllEntries,
  get-AllEntries, Option-cases, Bool-cases, truthy, All, is_some, ◌==◌,
}
use kyc_agent_nordvik.Python.{Python, PrintsDates, Date}
use kyc_agent_nordvik.Schemas.Case.{ApplicantDeclared}
use kyc_agent_nordvik.Schemas.Decisions.{ExtractionResult}
use kyc_agent_nordvik.Rules.Validation.{
  Checked, done, raise, text_field, text_if, MatchThresholds, expiry_field, ◌>>=◌,
}
use kyc_agent_nordvik.Rules.Validation.Run.{
  parse_expiry, is_declared, type_rules, document_rules, run_validation_rules,
}
use kyc_agent_nordvik.Schemas.Documents.{
  FieldValue, text, owners, Fields, DocumentType, id_document, proof_of_address,
  business_registration, ubo_declaration, unknown,
}

-- It does not raise.
abbrev pub Passes : {A : Type 0} → Checked A → Type 0
Passes (done a) = Unit
Passes (raise e) = ⊥

-- The fields that the rules compare are texts, and the expiry date is an ISO date.
pub record IsReadable (py : Python) (fields : Fields) : Type 0 where
  pub full_name : Passes (text_field "full_name" fields)
  pub date_of_birth : Passes (text_field "date_of_birth" fields)
  pub address : Passes (text_field "address" fields)
  pub company_name : Passes (text_field "company_name" fields)
  pub registration_number : Passes (text_field "registration_number" fields)
  pub expiry_date : Passes (expiry_field fields >>= parse_expiry py)

-- A field that some rule reads.
abbrev pub is_rule_field : String → Bool
is_rule_field field =
    field == "full_name"
    || field == "date_of_birth"
    || field == "address"
    || field == "company_name"
    || field == "registration_number"
    || field == "expiry_date"

-- A field that is no rule's holds anything; a rule's field holds a text, an expiry date an ISO date.
abbrev pub IsUsable : Python → String → FieldValue → Type 0
IsUsable py field (text s) = field == "expiry_date" ≡ true → Passes (parse_expiry py (some s))
IsUsable py field (owners os) = is_rule_field field ≡ false

module _ (py : Python) (fields : Fields) (usable : AllEntries (IsUsable py) fields) where
  not_owners :
      (field : String) (v : FieldValue)
      → is_rule_field field ≡ true
      → IsUsable py field v
      → (s : String) × (v ≡ text s)
  not_owners field (text s) r h = (s, refl)
  not_owners field (owners os) r h = cc

  text_field-Passes :
      (field : String) → is_rule_field field ≡ true → Passes (text_field field fields)
  unfolding text_field
  text_field-Passes field r = elim (Option-cases (get field fields)) [
    | inl e ↦ rw (e, text_field) tt
    | inr (v, e) ↦
        let (s, f) = not_owners field v r (get-AllEntries (IsUsable py) field v fields e usable) in
        rw (e, f, text_field) tt
  ]

  expiry-Passes : Passes (expiry_field fields >>= parse_expiry py)
  unfolding expiry_field parse_expiry
  expiry-Passes = elim (Option-cases (get "expiry_date" fields)) [
    | inl e ↦ rw (e, expiry_field) tt
    | inr (v, e) ↦
        let h = get-AllEntries (IsUsable py) "expiry_date" v fields e usable in
        let (s, f) = not_owners "expiry_date" v refl h in
        rw (e, f, expiry_field) (subst (IsUsable py "expiry_date") f h refl)
  ]

  pub usable-IsReadable : IsReadable py fields
  usable-IsReadable = record {
    full_name = text_field-Passes "full_name" refl;
    date_of_birth = text_field-Passes "date_of_birth" refl;
    address = text_field-Passes "address" refl;
    company_name = text_field-Passes "company_name" refl;
    registration_number = text_field-Passes "registration_number" refl;
    expiry_date = expiry-Passes;
  }

-- A printed date is usable anywhere.
pub isoformat-IsUsable :
    (py : Python) (field : String) (d : Date)
    → PrintsDates py
    → IsUsable py field (text (py.isoformat d))
unfolding parse_expiry
isoformat-IsUsable py field d dates _ = elim (Bool-cases (truthy (py.isoformat d))) [
  | inl e ↦ rw (e, dates.fromisoformat-isoformat d) tt
  | inr e ↦ rw e tt
]

module _ {A B : Type 0} where
  bind-Passes :
      (m : Checked A) (f : A → Checked B) → Passes m → ((a : A) → Passes (f a)) → Passes (m >>= f)
  bind-Passes (done a) f h k = k a
  bind-Passes (raise e) f h k = absurd h

module _ {A B C : Type 0} where
  bind-bind-Passes :
      (m : Checked A) (f : A → Checked B) (g : B → Checked C)
      → Passes (m >>= f)
      → ((b : B) → Passes (g b))
      → Passes (m >>= λ a. f a >>= g)
  bind-bind-Passes (done a) f g h k = bind-Passes (f a) g h k
  bind-bind-Passes (raise e) f g h k = absurd h

text_if-Passes :
    (b : Bool) (field : String) (fields : Fields)
    → Passes (text_field field fields)
    → Passes (text_if b field fields)
unfolding text_if
text_if-Passes true field fields h = h
text_if-Passes false field fields h = tt

module _ (py : Python) (applicant : ApplicantDeclared) (today : Date) (t : MatchThresholds) where
  type_rules-Passes :
      (type : DocumentType) (e : ExtractionResult)
      → IsReadable py e.fields
      → Passes (type_rules py applicant today t type e)
  unfolding type_rules
  type_rules-Passes id_document e h =
      bind-Passes (text_field "full_name" e.fields) _ h.full_name (λ full_name.
        bind-Passes (text_if (is_some applicant.date_of_birth) "date_of_birth" e.fields) _
          (text_if-Passes (is_some applicant.date_of_birth) "date_of_birth" e.fields
            h.date_of_birth)
          (λ dob.
            bind-bind-Passes (expiry_field e.fields) (parse_expiry py) _ h.expiry_date
              (λ expiry. tt)))
  type_rules-Passes proof_of_address e h =
      bind-Passes (text_field "address" e.fields) _ h.address (λ address. tt)
  type_rules-Passes business_registration e h =
      bind-Passes (text_if (is_declared py applicant.company_name) "company_name" e.fields) _
        (text_if-Passes (is_declared py applicant.company_name) "company_name" e.fields
          h.company_name)
        (λ company.
          bind-Passes
            (text_if (is_some applicant.registration_number) "registration_number" e.fields) _
            (text_if-Passes (is_some applicant.registration_number) "registration_number" e.fields
              h.registration_number)
            (λ number. tt))
  type_rules-Passes ubo_declaration e h = tt
  type_rules-Passes unknown e h = tt

  document_rules-Passes :
      (e : ExtractionResult)
      → IsReadable py e.fields
      → Passes (document_rules py applicant today t e)
  unfolding document_rules
  document_rules-Passes e h = elim (Option-cases e.extraction_error) [
    | inl none_failed ↦
        rw (none_failed, document_rules)
          (bind-Passes (type_rules py applicant today t e.doc_type e) _
            (type_rules-Passes e.doc_type e h) (λ rest. tt))
    | inr (error, failed) ↦ rw (failed, document_rules) tt
  ]

  -- If the fields of every extraction are readable, the pass over the extractions does not raise.
  pub run_validation_rules-Passes :
      (es : List ExtractionResult)
      → All (λ e. IsReadable py e.fields) es
      → Passes (run_validation_rules py applicant es today t)
  unfolding run_validation_rules
  run_validation_rules-Passes [] h = tt
  run_validation_rules-Passes (e ∷ es) h =
      bind-Passes (document_rules py applicant today t e) _ (document_rules-Passes e h.0) (λ first.
        bind-Passes (run_validation_rules py applicant es today t) _
          (run_validation_rules-Passes es h.1) (λ rest. tt))
