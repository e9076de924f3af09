-- ===== src/Llm/Fake/Grounding.antt =====
-- When the evaluator of llm/fake.py flags an extraction.
use kyc_agent_nordvik.Prelude.{
  Option, ap, arith, ◌≡◌, refl, String, Bool, true, false, not, ◌&&◌, ◌||◌, List, [], ◌∷◌, ◌++◌,
  any, nonempty, nonempty-append, truthy, ◌==◌, if◌then◌else◌, ◌∙◌, none, some, join, split,
  contains,
}
use kyc_agent_nordvik.Python.{Python, Patterns}
use kyc_agent_nordvik.Effects.{Outcome, value, raised}
use kyc_agent_nordvik.Schemas.Documents.{
  InputDocument, BeneficialOwner, FieldValue, text, owners, Fields,
}
use kyc_agent_nordvik.Schemas.Decisions.{ExtractionResult, RuleFlag}
use kyc_agent_nordvik.Rules.Validation.{normalize_text}
use kyc_agent_nordvik.Llm.Fake.{is_date_field}
use kyc_agent_nordvik.Llm.Fake.Evaluator.{
  haystack_of, is_grounded, name_or_empty, owner_flags, value_flags, field_flags, fake_verify,
}

abbrev pub has_flags : Outcome (List RuleFlag) → Bool
has_flags (value flags) = nonempty flags
has_flags (raised exc) = false

truthy-eq : (s : String) → truthy s ≡ not (s == "")
truthy-eq s = ground arith

module _ (py : Python) (re : Patterns) where
  abbrev pub owner_missing : String → BeneficialOwner → Bool
  owner_missing haystack o =
      truthy (name_or_empty o) && not (is_grounded py re haystack (name_or_empty o))

  abbrev pub value_missing : String → String → FieldValue → Bool
  value_missing haystack field (text v) = not (is_grounded py re haystack v)
  value_missing haystack field (owners os) =
      field == "beneficial_owners" && any (owner_missing haystack) os

  -- A text or a named owner that does not stand in the document, in a field that is no date.
  abbrev pub entry_missing : String → String × FieldValue → Bool
  entry_missing haystack (field, v) = not (is_date_field field) && value_missing haystack field v

  nonempty-cons_if :
      (b : Bool) (f : RuleFlag) (flags : List RuleFlag)
      → nonempty (if b then f ∷ flags else flags) ≡ (b || nonempty flags)
  nonempty-cons_if true f flags = refl
  nonempty-cons_if false f flags = refl

  nonempty-owner_flags :
      (haystack : String) (e : ExtractionResult) (os : List BeneficialOwner)
      → nonempty (owner_flags py re haystack e os) ≡ any (owner_missing haystack) os
  unfolding owner_flags
  nonempty-owner_flags haystack e [] = refl
  nonempty-owner_flags haystack e (o ∷ os) =
      rw
        (
          nonempty-cons_if (owner_missing haystack o) _ (owner_flags py re haystack e os),
          nonempty-owner_flags haystack e os,
        )
        refl

  nonempty-one_unless : (b : Bool) (f : RuleFlag) → nonempty (if b then [] else f ∷ []) ≡ not b
  nonempty-one_unless true f = refl
  nonempty-one_unless false f = refl

  nonempty-if_list :
      (b : Bool) (flags : List RuleFlag)
      → nonempty (if b then flags else []) ≡ (b && nonempty flags)
  nonempty-if_list true flags = refl
  nonempty-if_list false flags = refl

  nonempty-value_flags :
      (haystack : String) (e : ExtractionResult) (field : String) (v : FieldValue)
      → nonempty (value_flags py re haystack e field v) ≡ value_missing haystack field v
  nonempty-value_flags haystack e field (text v) =
      nonempty-one_unless (is_grounded py re haystack v) _
  nonempty-value_flags haystack e field (owners os) =
      rw
        (
          nonempty-if_list (field == "beneficial_owners") (owner_flags py re haystack e os),
          nonempty-owner_flags haystack e os,
        )
        refl

  nonempty-skip_if :
      (b : Bool) (found rest : List RuleFlag)
      → nonempty (if b then rest else found ++ rest) ≡ (not b && nonempty found || nonempty rest)
  nonempty-skip_if true found rest = refl
  nonempty-skip_if false found rest = nonempty-append found rest

  nonempty-field_flags :
      (haystack : String) (e : ExtractionResult) (fields : Fields)
      → nonempty (field_flags py re haystack e fields) ≡ any (entry_missing haystack) fields
  unfolding field_flags
  nonempty-field_flags haystack e [] = refl
  nonempty-field_flags haystack e ((field, v) ∷ fields) =
      rw
        (
          nonempty-skip_if (is_date_field field) (value_flags py re haystack e field v)
              (field_flags py re haystack e fields),
          nonempty-value_flags haystack e field v,
          nonempty-field_flags haystack e fields,
        )
        refl

  -- The words of a text, case-folded and with one space between them.
  abbrev pub words_of : String → String
  words_of s = join " " (split (py.casefold s))

  -- The words of a value stand in the document's text without its markers.
  abbrev pub stands_in : InputDocument → String → Bool
  stands_in document v =
      contains (words_of v) (words_of (re.without_glitches document.text_content))

  -- An owner with a name that is not empty and does not stand in the document.
  abbrev pub made_up : InputDocument → BeneficialOwner → Bool
  made_up document o = elim o.full_name [
    | none ↦ false
    | some name ↦ not (name == "") && not (stands_in document name)
  ]

  -- A field that is none of the four dates, and whose text, or one of whose owners, does not stand
  -- in the document.
  abbrev pub is_ungrounded : InputDocument → String × FieldValue → Bool
  is_ungrounded document (field, v) =
      not (
        field == "date_of_birth"
        || field == "expiry_date"
        || field == "issue_date"
        || field == "registration_date")
      && elim v [
        | text s ↦ not (stands_in document s)
        | owners os ↦ field == "beneficial_owners" && any (made_up document) os
      ]

  named_missing-eq :
      (document : InputDocument) (o : BeneficialOwner) (name : Option String)
      → owner_missing (haystack_of py re document) (record o { full_name = name })
        ≡ made_up document (record o { full_name = name })
  unfolding is_grounded haystack_of normalize_text
  named_missing-eq document o none = refl
  named_missing-eq document o (some name) =
      ap (λ b. b && not (stands_in document name)) (truthy-eq name)

  owner_missing-eq :
      (document : InputDocument) (o : BeneficialOwner)
      → owner_missing (haystack_of py re document) o ≡ made_up document o
  owner_missing-eq document o = named_missing-eq document o o.full_name

  any_owner-eq :
      (document : InputDocument) (os : List BeneficialOwner)
      → any (owner_missing (haystack_of py re document)) os ≡ any (made_up document) os
  any_owner-eq document [] = refl
  any_owner-eq document (o ∷ os) = rw (owner_missing-eq document o, any_owner-eq document os) refl

  entry_missing-eq :
      (document : InputDocument) (entry : String × FieldValue)
      → entry_missing (haystack_of py re document) entry ≡ is_ungrounded document entry
  unfolding is_grounded haystack_of normalize_text
  entry_missing-eq document (field, text s) = refl
  entry_missing-eq document (field, owners os) = rw (any_owner-eq document os) refl

  any_entry-eq :
      (document : InputDocument) (fields : Fields)
      → any (entry_missing (haystack_of py re document)) fields
        ≡ any (is_ungrounded document) fields
  any_entry-eq document [] = refl
  any_entry-eq document (entry ∷ fields) =
      rw (entry_missing-eq document entry, any_entry-eq document fields) refl

  -- The deterministic evaluator flags an extraction exactly when some field, other than the four
  -- dates, holds a text, or the name of an owner, whose words, case-folded and with single spaces,
  -- do not stand in the document's text, which is taken without its markers and in the same form.
  pub fake_verify-flags_iff :
      {W : Type 0} (document : InputDocument) (e : ExtractionResult) (w : W)
      → has_flags (fake_verify py re document e w).0 ≡ any (is_ungrounded document) e.fields
  unfolding fake_verify
  fake_verify-flags_iff document e w =
      nonempty-field_flags (haystack_of py re document) e e.fields ∙ any_entry-eq document e.fields
