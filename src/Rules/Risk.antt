-- ===== src/Rules/Risk.antt =====
-- rules/risk.py: the escalation triggers and the decision matrix. The properties are in the
-- modules below.
pub mod Codes
pub mod Triggers
pub mod Gate
use Prim.Native.Nat.{Ordering}
use Prim.Native.String.{compare}
use kyc_agent_nordvik.Prelude.{
  ℕ, String, Bool, true, false, not, ◌&&◌, ◌||◌, Option, none, some, List, [], ◌∷◌, ◌++◌, map, ltb,
  if◌then◌else◌, nonempty, any, select, is_some, concat, join,
}
use kyc_agent_nordvik.Python.{Python, Score, percent}
use kyc_agent_nordvik.Schemas.Ids
use kyc_agent_nordvik.Schemas.Ids.{RuleId, value, same_rule, elem, critical_mismatch_sources}
use kyc_agent_nordvik.Schemas.Case.{
  CustomerType, individual, business, customer_value, Amount, euro,
}
use kyc_agent_nordvik.Schemas.Decisions.{
  Severity, critical, warning, RuleFlag, RegistryHit, registry_value, Registry, RiskLevel, low,
  medium, high, Decision, approve, reject, escalate, system,
}
use kyc_agent_nordvik.Prelude.{◌*◌}

pub record RiskThresholds : Type 0 where
  pub high_volume_individual_eur : Amount
  pub high_volume_business_eur : Amount
  pub confidence : Score

abbrev pub default_risk_thresholds : RiskThresholds
default_risk_thresholds = record {
  high_volume_individual_eur = 10000 * euro;
  high_volume_business_eur = 50000 * euro;
  confidence = percent 75;
}

-- sorted(set(ids)): in the order of the texts, each once.
insert_id : RuleId → List RuleId → List RuleId
insert_id r [] = r ∷ []
insert_id r (s ∷ ids) = elim (compare (value r) (value s)) [
  | Ordering.lt ↦ r ∷ s ∷ ids
  | Ordering.eq ↦ s ∷ ids
  | Ordering.gt ↦ s ∷ insert_id r ids
]

unfoldable pub sorted_set : List RuleId → List RuleId
unfolding insert_id
sorted_set [] = []
sorted_set (r ∷ ids) = insert_id r (sorted_set ids)

abbrev pub rule_id_of : RuleFlag → RuleId
rule_id_of f = f.rule_id

abbrev pub is_critical : Severity → Bool
is_critical critical = true
is_critical warning = false

-- RuleId(f.rule_id) in CRITICAL_MISMATCH_SOURCES and f.severity is Severity.CRITICAL
abbrev pub is_critical_mismatch : RuleFlag → Bool
is_critical_mismatch f = elem f.rule_id critical_mismatch_sources && is_critical f.severity

abbrev pub when : Bool → RuleFlag → List RuleFlag
when b f = if b then f ∷ [] else []

abbrev pub limit_for : CustomerType → RiskThresholds → Amount
limit_for individual t = t.high_volume_individual_eur
limit_for business t = t.high_volume_business_eur

module _ (py : Python) where
  abbrev hit_score : RegistryHit → String
  hit_score h = concat (h.matched_name ∷ " (" ∷ py.fixed2 h.score ∷ ")" ∷ [])

  abbrev owner_hit : RegistryHit → String
  owner_hit h = concat (registry_value h.registry ∷ ":" ∷ h.matched_name ∷ [])

  abbrev critical_flag : RuleId → String → RuleFlag
  critical_flag r details = record { rule_id = r; severity = critical; details = details }

  sanctions_flag : List RegistryHit → RuleFlag
  sanctions_flag hits =
      critical_flag Ids.sanctions_hit
        (concat ("sanctions registry match: " ∷ join ", " (map hit_score hits) ∷ []))

  pep_flag : List RegistryHit → RuleFlag
  pep_flag hits =
      critical_flag Ids.pep_match
        (concat ("PEP registry match: " ∷ join ", " (map hit_score hits) ∷ []))

  ubo_flag : List RegistryHit → RuleFlag
  ubo_flag hits =
      critical_flag Ids.ubo_sanctions_or_pep
        (concat ("beneficial owner registry match: " ∷ join ", " (map owner_hit hits) ∷ []))

  volume_flag : CustomerType → Amount → Amount → RuleFlag
  volume_flag customer volume limit = critical_flag Ids.high_volume (
      concat (
        "expected monthly volume "
        ∷ py.decimal_str volume
        ∷ " EUR exceeds "
        ∷ py.decimal_str limit
        ∷ " EUR threshold for "
        ∷ customer_value customer
        ∷ []))

  confidence_flag : Score → Score → RuleFlag
  confidence_flag confidence threshold =
      critical_flag Ids.low_confidence (
        concat
          ("overall confidence " ∷ py.fixed2 confidence ∷ " below " ∷ py.fixed2 threshold ∷ []))

  mismatch_flag : List RuleFlag → RuleFlag
  unfolding sorted_set
  mismatch_flag mismatches = critical_flag Ids.critical_mismatch (
      concat (
        "critical mismatch between declared and extracted data: "
        ∷ join ", " (map value (sorted_set (map rule_id_of mismatches)))
        ∷ []))

  unavailable_flag : Registry → RuleFlag
  unavailable_flag registry = critical_flag Ids.registry_unavailable (
      concat (
        registry_value registry
        ∷ " registry unavailable after retries; 'no answer' must not be treated as 'clean'"
        ∷ []))

  -- The list grows by each `append` in the order of the tests.
  unfoldable pub evaluate_risk_rules :
      (customer_type : CustomerType) (expected_monthly_volume_eur : Amount)
      (overall_confidence : Score) (validation_flags : List RuleFlag)
      (sanctions_hits pep_hits ubo_hits : List RegistryHit) (registry_unavailable : List Registry)
      → RiskThresholds
      → List RuleFlag
  unfolding sanctions_flag pep_flag ubo_flag volume_flag confidence_flag mismatch_flag
      unavailable_flag
  evaluate_risk_rules customer volume confidence flags sanctions_hits pep_hits ubo_hits unavailable
        t =
      let limit = limit_for customer t in
      let mismatches = select is_critical_mismatch flags in
      when (nonempty sanctions_hits) (sanctions_flag sanctions_hits)
      ++ when (nonempty pep_hits) (pep_flag pep_hits)
      ++ when (nonempty ubo_hits) (ubo_flag ubo_hits)
      ++ when (ltb limit volume) (volume_flag customer volume limit)
      ++ when (ltb confidence t.confidence) (confidence_flag confidence t.confidence)
      ++ when (nonempty mismatches) (mismatch_flag mismatches)
      ++ map unavailable_flag unavailable

abbrev pub high_risk_ids : List RuleId
high_risk_ids =
    Ids.sanctions_hit ∷ Ids.pep_match ∷ Ids.ubo_sanctions_or_pep ∷ Ids.registry_unavailable ∷ []

abbrev pub is_high_risk : RuleFlag → Bool
is_high_risk f = elem f.rule_id high_risk_ids

unfoldable pub risk_level : List RuleFlag → RiskLevel
risk_level triggered =
    if any is_high_risk triggered then high else if nonempty triggered then medium else low

abbrev pub is_expired : RuleFlag → Bool
is_expired f = same_rule f.rule_id Ids.doc_expired

abbrev reject_for : RuleId → String → Decision
reject_for code rationale = record {
  outcome = reject;
  decided_by = system;
  reason_codes = code ∷ [];
  rationale = rationale;
  reviewer = none;
}

abbrev escalate_for : List RuleFlag → Bool → Decision
escalate_for triggers degraded = record {
  outcome = escalate;
  decided_by = system;
  reason_codes =
      sorted_set (map rule_id_of triggers)
      ++ (if degraded then Ids.degraded_to_manual ∷ [] else []);
  rationale = "mandatory human review triggered";
  reviewer = none;
}

abbrev approve_clean : Decision
approve_clean = record {
  outcome = approve;
  decided_by = system;
  reason_codes = Ids.all_checks_passed ∷ [];
  rationale = "all validation checks passed, no escalation triggers fired";
  reviewer = none;
}

abbrev details_of : Option RuleFlag → String
details_of none = ""
details_of (some f) = f.details

abbrev first_details : List RuleFlag → String
first_details [] = ""
first_details (f ∷ _) = f.details

-- The matrix, top down. `details_of` and `first_details` are read only where there is a flag.
unfoldable pub decide_gate :
    (completeness_flag : Option RuleFlag) (validation_flags escalation_triggers : List RuleFlag)
    (degraded : Bool)
    → Decision
decide_gate completeness_flag validation_flags escalation_triggers degraded =
    let doc_expired = select is_expired validation_flags in
    if is_some completeness_flag && not degraded
    then reject_for Ids.incomplete_package (details_of completeness_flag)
    else if nonempty doc_expired && not (nonempty escalation_triggers) && not degraded
    then reject_for Ids.document_expired (first_details doc_expired)
    else if nonempty escalation_triggers || degraded
    then escalate_for escalation_triggers degraded
    else approve_clean
