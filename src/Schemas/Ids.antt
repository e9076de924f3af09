-- ===== src/Schemas/Ids.antt =====
-- rules/ids.py: the rule identifiers. Flags hold the member; the program holds its text, and
-- every flag that it builds takes that text from a member.
use kyc_agent_nordvik.Prelude.{
  String, ◌≡◌, refl, ap, ◌∙◌, sym, Bool, true, Option, none, some, List, [], ◌∷◌, ◌==◌, eq_iff, any,
  if◌then◌else◌, ◌↔◌,
}
use mathlib.Core.Option.{some-injective}

pub data RuleId : Type 0 where
  incomplete_package doc_expired name_mismatch dob_mismatch address_mismatch : RuleId
  company_name_mismatch reg_number_mismatch extraction_incomplete : RuleId
  evaluator_discrepancy : RuleId
  sanctions_hit pep_match high_volume low_confidence critical_mismatch : RuleId
  registry_unavailable ubo_sanctions_or_pep : RuleId
  document_expired all_checks_passed degraded_to_manual unreadable_document : RuleId

-- The member's text.
abbrev pub value : RuleId → String
value incomplete_package = "INCOMPLETE_PACKAGE"
value doc_expired = "DOC_EXPIRED"
value name_mismatch = "NAME_MISMATCH"
value dob_mismatch = "DOB_MISMATCH"
value address_mismatch = "ADDRESS_MISMATCH"
value company_name_mismatch = "COMPANY_NAME_MISMATCH"
value reg_number_mismatch = "REG_NUMBER_MISMATCH"
value extraction_incomplete = "EXTRACTION_INCOMPLETE"
value evaluator_discrepancy = "EVALUATOR_DISCREPANCY"
value sanctions_hit = "SANCTIONS_HIT"
value pep_match = "PEP_MATCH"
value high_volume = "HIGH_VOLUME"
value low_confidence = "LOW_CONFIDENCE"
value critical_mismatch = "CRITICAL_MISMATCH"
value registry_unavailable = "REGISTRY_UNAVAILABLE"
value ubo_sanctions_or_pep = "UBO_SANCTIONS_OR_PEP"
value document_expired = "DOCUMENT_EXPIRED"
value all_checks_passed = "ALL_CHECKS_PASSED"
value degraded_to_manual = "DEGRADED_TO_MANUAL"
value unreadable_document = "UNREADABLE_DOCUMENT"

abbrev pub rule_ids : List RuleId
rule_ids =
    incomplete_package ∷ doc_expired ∷ name_mismatch ∷ dob_mismatch ∷ address_mismatch
    ∷ company_name_mismatch ∷ reg_number_mismatch ∷ extraction_incomplete ∷ evaluator_discrepancy
    ∷ sanctions_hit ∷ pep_match ∷ high_volume ∷ low_confidence ∷ critical_mismatch
    ∷ registry_unavailable ∷ ubo_sanctions_or_pep ∷ document_expired ∷ all_checks_passed
    ∷ degraded_to_manual ∷ unreadable_document ∷ []

find_value : String → List RuleId → Option RuleId
find_value s [] = none
find_value s (r ∷ rs) = if value r == s then some r else find_value s rs

-- RuleId(text), where `none` is its ValueError.
rule_id? : String → Option RuleId
unfolding find_value
rule_id? s = find_value s rule_ids

rule_id?-value : (r : RuleId) → rule_id? (value r) ≡ some r
unfolding rule_id?
rule_id?-value incomplete_package = refl
rule_id?-value _ = refl

-- The comparison of rule ids is that of their texts.
abbrev pub same_rule : RuleId → RuleId → Bool
same_rule r s = value r == value s

pub value-injective : (r s : RuleId) → value r ≡ value s → r ≡ s
value-injective r s e =
    some-injective r s (sym (rule_id?-value r) ∙ ap rule_id? e ∙ rule_id?-value s)

pub same_rule_iff : (r s : RuleId) → (same_rule r s ≡ true) ↔ (r ≡ s)
same_rule_iff r s = (
  λ h. value-injective r s ((eq_iff (value r) (value s)).0 h),
  λ e. (eq_iff (value r) (value s)).1 (ap value e),
)

-- r in ids
abbrev pub elem : RuleId → List RuleId → Bool
elem r ids = any (λ s. same_rule s r) ids

abbrev pub critical_mismatch_sources : List RuleId
critical_mismatch_sources =
    name_mismatch ∷ dob_mismatch ∷ company_name_mismatch ∷ reg_number_mismatch
    ∷ evaluator_discrepancy ∷ []
