-- ===== src/Rules/Validation/Report.antt =====
-- The pass of `run_validation_rules` of rules/validation.py over a list of documents.
use mathlib.Core.List.{append_assoc}
use kyc_agent_nordvik.Prelude.{
  get, ◌≡◌, refl, sym, ap, ◌∙◌, String, true, false, Option, none, some, List, [], ◌∷◌, ◌++◌,
  truthy, is_some, subst, arith, if◌then◌else◌,
}
use kyc_agent_nordvik.Python.{Python, Date}
use kyc_agent_nordvik.Schemas.Documents.{id_document, text, Fields}
use kyc_agent_nordvik.Schemas.Case.{ApplicantDeclared}
use kyc_agent_nordvik.Schemas.Decisions.{ExtractionResult}
use kyc_agent_nordvik.Rules.Validation.{
  Checked, done, raise, value_error, ◌>>=◌, MatchThresholds, text_field, text_if, expiry_field,
  expiry_text,
}
use kyc_agent_nordvik.Rules.Validation.Run.{
  Findings, no_findings, ◌then◌, parse_expiry, type_rules, document_rules, run_validation_rules,
}

then_assoc : (a b c : Findings) → (a then b) then c ≡ a then (b then c)
then_assoc a b c =
    cc (append_assoc a.checks b.checks c.checks, append_assoc a.flags b.flags c.flags)

-- The findings of two parts, in order.
abbrev both : Checked Findings → Checked Findings → Checked Findings
both m n = m >>= λ a. n >>= λ b. done (a then b)

both_assoc : (l m n : Checked Findings) → both l (both m n) ≡ both (both l m) n
both_assoc (raise e) m n = refl
both_assoc (done a) (raise e) n = refl
both_assoc (done a) (done b) (raise e) = refl
both_assoc (done a) (done b) (done c) = ap done (sym (then_assoc a b c))

both-unit : (m : Checked Findings) → both (done no_findings) m ≡ m
both-unit (done a) = refl
both-unit (raise e) = refl

eq-none_of_is_some : {A : Type 0} (o : Option A) → is_some o ≡ false → o ≡ none
eq-none_of_is_some none h = refl
eq-none_of_is_some (some a) h = cc

-- It raises.
abbrev pub Raises : {A : Type 0} → Checked A → Type 0
Raises (done a) = ⊥
Raises (raise e) = Unit

module _ {A B : Type 0} where
  bind-Raises_left : (m : Checked A) (f : A → Checked B) → Raises m → Raises (m >>= f)
  bind-Raises_left (raise e) f h = tt
  bind-Raises_left (done a) f h = absurd h

  bind-Raises_right :
      (m : Checked A) (f : A → Checked B) → ((a : A) → Raises (f a)) → Raises (m >>= f)
  bind-Raises_right (raise e) f h = tt
  bind-Raises_right (done a) f h = h a

expiry_field-text :
    (fields : Fields) (raw : String)
    → get "expiry_date" fields ≡ some (text raw)
    → expiry_field fields ≡ done (some raw)
unfolding expiry_field
expiry_field-text fields raw h = ap expiry_text h

module _ (py : Python) (applicant : ApplicantDeclared) (today : Date) (t : MatchThresholds) where
  abbrev rules_of : List ExtractionResult → Checked Findings
  rules_of es = run_validation_rules py applicant es today t

  -- Validating two lists of documents one after the other is validating both at once: the checks
  -- and the flags of the first come first, and the first failure ends it.
  pub run_validation_rules-append :
      (xs ys : List ExtractionResult)
      → run_validation_rules py applicant (xs ++ ys) today t ≡ (
          run_validation_rules py applicant xs today t >>= λ a.
          run_validation_rules py applicant ys today t >>= λ b. done (a then b))
  unfolding run_validation_rules
  run_validation_rules-append [] ys = sym (both-unit (rules_of ys))
  run_validation_rules-append (x ∷ xs) ys =
      ap (both (document_rules py applicant today t x)) (run_validation_rules-append xs ys)
      ∙ both_assoc (document_rules py applicant today t x) (rules_of xs) (rules_of ys)

  document_rules-unreadable :
      (e : ExtractionResult)
      → is_some e.extraction_error ≡ true
      → document_rules py applicant today t e ≡ done no_findings
  unfolding document_rules
  document_rules-unreadable e h = ground (arith, h)

  cons-unreadable :
      (e : ExtractionResult) (after : List ExtractionResult)
      → is_some e.extraction_error ≡ true
      → rules_of (e ∷ after) ≡ rules_of after
  unfolding run_validation_rules
  cons-unreadable e after h =
      ap (λ m. both m (rules_of after)) (document_rules-unreadable e h) ∙ both-unit (rules_of after)

  -- A document whose extraction has an error leaves the result of the pass as it is without it.
  pub run_validation_rules-unreadable :
      (before after : List ExtractionResult) (e : ExtractionResult)
      → is_some e.extraction_error ≡ true
      → run_validation_rules py applicant (before ++ e ∷ after) today t
        ≡ run_validation_rules py applicant (before ++ after) today t
  run_validation_rules-unreadable before after e h =
      run_validation_rules-append before (e ∷ after)
      ∙ ap (both (rules_of before)) (cons-unreadable e after h)
      ∙ sym (run_validation_rules-append before after)

  parse_expiry-Raises :
      (raw : String)
      → truthy raw ≡ true
      → py.fromisoformat raw ≡ none
      → parse_expiry py (some raw) ≡ raise value_error
  unfolding parse_expiry
  parse_expiry-Raises raw given bad = rw (given, bad) refl

  type_rules-Raises :
      (e : ExtractionResult) (raw : String)
      → get "expiry_date" e.fields ≡ some (text raw)
      → truthy raw ≡ true
      → py.fromisoformat raw ≡ none
      → Raises (type_rules py applicant today t id_document e)
  unfolding type_rules
  type_rules-Raises e raw there given bad =
      bind-Raises_right (text_field "full_name" e.fields) _ (λ full_name.
        bind-Raises_right (text_if (is_some applicant.date_of_birth) "date_of_birth" e.fields) _
          (λ date_of_birth.
            rw (expiry_field-text e.fields raw there, parse_expiry-Raises raw given bad) tt))

  document_rules-Raises :
      (e : ExtractionResult) (raw : String)
      → is_some e.extraction_error ≡ false
      → e.doc_type ≡ id_document
      → get "expiry_date" e.fields ≡ some (text raw)
      → truthy raw ≡ true
      → py.fromisoformat raw ≡ none
      → Raises (document_rules py applicant today t e)
  unfolding document_rules
  document_rules-Raises e raw readable id there given bad =
      rw (eq-none_of_is_some e.extraction_error readable, id)
        (bind-Raises_left (type_rules py applicant today t id_document e) _
          (type_rules-Raises e raw there given bad))

  -- An identity document with an expiry date that is no ISO date makes the whole pass raise.
  pub run_validation_rules-Raises :
      (before after : List ExtractionResult) (e : ExtractionResult) (raw : String)
      → is_some e.extraction_error ≡ false
      → e.doc_type ≡ id_document
      → get "expiry_date" e.fields ≡ some (text raw)
      → truthy raw ≡ true
      → py.fromisoformat raw ≡ none
      → Raises (run_validation_rules py applicant (before ++ e ∷ after) today t)
  unfolding run_validation_rules
  run_validation_rules-Raises before after e raw readable id there given bad =
      subst Raises (sym (run_validation_rules-append before (e ∷ after))) (
        bind-Raises_right (rules_of before) _ (λ first. bind-Raises_left (rules_of (e ∷ after)) _ (
          bind-Raises_left (document_rules py applicant today t e) _
            (document_rules-Raises e raw readable id there given bad))))
