-- ===== src/Llm/Fake/Evaluator.antt =====
-- FakeEvaluator and FakeRiskNarrator of llm/fake.py: every text that was extracted must stand in the
-- document.
use kyc_agent_nordvik.Prelude.{
  String, Bool, not, ◌&&◌, none, some, List, [], ◌∷◌, ◌++◌, map, concat, join, nonempty, truthy,
  contains, ◌==◌, if◌then◌else◌,
}
use kyc_agent_nordvik.Python.{Python, Patterns}
use kyc_agent_nordvik.Effects.{value, Call}
use kyc_agent_nordvik.Rules.Validation.{normalize_text}
use kyc_agent_nordvik.Schemas.Ids
use kyc_agent_nordvik.Schemas.Ids.{value as id_value}
use kyc_agent_nordvik.Schemas.Case.{ApplicantDeclared}
use kyc_agent_nordvik.Schemas.Documents.{
  type_value, InputDocument, BeneficialOwner, FieldValue, text, owners, Fields,
}
use kyc_agent_nordvik.Schemas.Decisions.{ExtractionResult, RuleFlag, critical, severity_value}
use kyc_agent_nordvik.Llm.Fake.{is_date_field}

abbrev pub name_or_empty : BeneficialOwner → String
name_or_empty o = elim o.full_name [ none ↦ "" | some name ↦ name ]

module _ (py : Python) (re : Patterns) where
  unfoldable pub haystack_of : InputDocument → String
  unfolding normalize_text
  haystack_of document = normalize_text py (re.without_glitches document.text_content)

  unfoldable pub is_grounded : (haystack value : String) → Bool
  unfolding normalize_text contains
  is_grounded haystack v = contains (normalize_text py v) haystack

  abbrev grounding_flag : ExtractionResult → List String → RuleFlag
  grounding_flag extraction parts = record {
    rule_id = Ids.evaluator_discrepancy;
    severity = critical;
    details = concat (
        (type_value extraction.doc_type ∷ "/" ∷ extraction.document_id ∷ ": " ∷ [])
        ++ parts
        ++ " not found in the source document" ∷ []);
  }

  unfoldable pub owner_flags : String → ExtractionResult → List BeneficialOwner → List RuleFlag
  unfolding is_grounded
  owner_flags haystack extraction [] = []
  owner_flags haystack extraction (o ∷ os) =
      let rest = owner_flags haystack extraction os in
      let name = name_or_empty o in
      if truthy name && not (is_grounded haystack name)
      then grounding_flag extraction ("beneficial owner " ∷ py.repr name ∷ []) ∷ rest
      else rest

  abbrev pub value_flags : String → ExtractionResult → String → FieldValue → List RuleFlag
  value_flags haystack extraction field (text v) =
      if is_grounded haystack v
      then []
      else grounding_flag extraction ("extracted " ∷ field ∷ "=" ∷ py.repr v ∷ []) ∷ []
  value_flags haystack extraction field (owners os) =
      if field == "beneficial_owners" then owner_flags haystack extraction os else []

  -- The loop over the fields; date fields are left out.
  unfoldable pub field_flags : String → ExtractionResult → Fields → List RuleFlag
  unfolding owner_flags
  field_flags haystack extraction [] = []
  field_flags haystack extraction ((field, v) ∷ fields) =
      let rest = field_flags haystack extraction fields in
      if is_date_field field then rest else value_flags haystack extraction field v ++ rest

  unfoldable pub fake_verify :
      {W : Type 0} → InputDocument → ExtractionResult → Call W (List RuleFlag)
  unfolding field_flags haystack_of
  fake_verify document extraction w =
      (value (field_flags (haystack_of document) extraction extraction.fields), w)

abbrev summary_line : RuleFlag → String
summary_line f =
    concat ("- [" ∷ severity_value f.severity ∷ "] " ∷ id_value f.rule_id ∷ ": " ∷ f.details ∷ [])

unfoldable pub fake_narrate :
    {W : Type 0} → ApplicantDeclared → (triggered flags : List RuleFlag) → Call W String
fake_narrate applicant triggered flags w = (
  value (
      if not (nonempty triggered) && not (nonempty flags)
      then concat (
          "No risk triggers or validation flags for " ∷ applicant.full_name
          ∷ "; case qualifies for automatic processing." ∷ [])
      else join "\n" (
          (concat ("Risk summary for " ∷ applicant.full_name ∷ ":" ∷ [])
            ∷ map summary_line triggered)
          ++ map summary_line flags)),
  w,
)
