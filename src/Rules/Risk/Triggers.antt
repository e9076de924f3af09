-- ===== src/Rules/Risk/Triggers.antt =====
-- The escalation triggers of rules/risk.py: which rules fire, and the risk level that follows.
use kyc_agent_nordvik.Prelude.{
  ◌≡◌, refl, ◌↔◌, ◌≤◌, Bool, false, ◌&&◌, ◌||◌, List, [], ◌∷◌, map, arith, any, any-append,
  nonempty, nonempty-select, select, ap, ◌∙◌, if◌then◌else◌, ltb,
}
use kyc_agent_nordvik.Python.{Python, Score}
use kyc_agent_nordvik.Schemas.Ids
use kyc_agent_nordvik.Schemas.Ids.{RuleId, same_rule, elem, critical_mismatch_sources}
use kyc_agent_nordvik.Schemas.Case.{CustomerType, individual, business, Amount}
use kyc_agent_nordvik.Schemas.Decisions.{
  Severity, critical, warning, RuleFlag, RegistryHit, Registry, low, medium, high,
}
use kyc_agent_nordvik.Rules.Risk.{
  RiskThresholds, evaluate_risk_rules, is_critical, is_critical_mismatch, limit_for, risk_level,
  unavailable_flag, is_high_risk,
}

-- A critical flag of one of the rules that compare what was declared with what was read.
abbrev pub mismatch_of : Severity → RuleId → Bool
mismatch_of warning r = false
mismatch_of critical r =
    same_rule Ids.name_mismatch r
    || same_rule Ids.dob_mismatch r
    || same_rule Ids.company_name_mismatch r
    || same_rule Ids.reg_number_mismatch r
    || same_rule Ids.evaluator_discrepancy r

abbrev pub shows_mismatch : RuleFlag → Bool
shows_mismatch f = mismatch_of f.severity f.rule_id

mismatch_of-eq :
    (s : Severity) (r : RuleId)
    → (elem r critical_mismatch_sources && is_critical s) ≡ mismatch_of s r
mismatch_of-eq warning r = ground arith
mismatch_of-eq critical r = ground arith

any_mismatch-eq :
    (flags : List RuleFlag) → any is_critical_mismatch flags ≡ any shows_mismatch flags
any_mismatch-eq [] = refl
any_mismatch-eq (f ∷ flags) =
    rw (mismatch_of-eq f.severity f.rule_id)
      (ap (λ b. shows_mismatch f || b) (any_mismatch-eq flags))

-- A flag of this rule is among the triggers.
abbrev pub fired : RuleId → List RuleFlag → Bool
fired r triggers = any (λ f. same_rule f.rule_id r) triggers

module _ (py : Python) where
  fired-unavailable :
      (r : RuleId) (l : List Registry)
      → fired r (map (unavailable_flag py) l) ≡ (same_rule Ids.registry_unavailable r && nonempty l)
  unfolding unavailable_flag
  fired-unavailable r [] = ground arith
  fired-unavailable r (x ∷ l) = ground (arith, fired-unavailable r l)

  high-unavailable :
      (l : List Registry) → any is_high_risk (map (unavailable_flag py) l) ≡ nonempty l
  unfolding unavailable_flag
  high-unavailable [] = refl
  high-unavailable (x ∷ l) = refl

  nonempty-unavailable : (l : List Registry) → nonempty (map (unavailable_flag py) l) ≡ nonempty l
  nonempty-unavailable [] = refl
  nonempty-unavailable (x ∷ l) = refl

module _ (py : Python) (customer : CustomerType) (volume : Amount) (confidence : Score)
    (flags : List RuleFlag) (sanctions_hits pep_hits ubo_hits : List RegistryHit)
    (unavailable : List Registry) (t : RiskThresholds) where
  abbrev triggers : List RuleFlag
  triggers =
      evaluate_risk_rules py customer volume confidence flags sanctions_hits pep_hits ubo_hits
        unavailable t

  -- The volume is over the limit that the thresholds have for a customer of this type.
  abbrev pub is_over_limit : CustomerType → Bool
  is_over_limit individual = ltb t.high_volume_individual_eur volume
  is_over_limit business = ltb t.high_volume_business_eur volume

  -- When each rule is to fire, and no other rule is.
  abbrev pub expected : RuleId → Bool
  expected Ids.sanctions_hit = nonempty sanctions_hits
  expected Ids.pep_match = nonempty pep_hits
  expected Ids.ubo_sanctions_or_pep = nonempty ubo_hits
  expected Ids.high_volume = is_over_limit customer
  expected Ids.low_confidence = ltb confidence t.confidence
  expected Ids.critical_mismatch = any shows_mismatch flags
  expected Ids.registry_unavailable = nonempty unavailable
  expected _ = false

  over_limit-eq : (c : CustomerType) → ltb (limit_for c t) volume ≡ is_over_limit c
  over_limit-eq individual = refl
  over_limit-eq business = refl

  mismatches-eq : nonempty (select is_critical_mismatch flags) ≡ any shows_mismatch flags
  mismatches-eq = nonempty-select is_critical_mismatch flags ∙ any_mismatch-eq flags

  -- A rule fires exactly under its own condition: a hit of the registry that it is about, a volume
  -- over the limit of the customer's type, a confidence below its threshold, a critical flag of one
  -- of the five mismatch rules, a registry that is missing. The rules that are no escalation triggers
  -- never fire.
  pub fired-evaluate_risk_rules : (r : RuleId) → fired r triggers ≡ expected r
  unfolding evaluate_risk_rules
  fired-evaluate_risk_rules Ids.sanctions_hit = simp any-append (
      ground (
        arith,
        over_limit-eq customer,
        mismatches-eq,
        fired-unavailable py Ids.sanctions_hit unavailable,
      ))
  fired-evaluate_risk_rules r =
      simp any-append
        (ground (arith, over_limit-eq customer, mismatches-eq, fired-unavailable py r unavailable))

  -- No trigger fires exactly when there is no hit and no registry is missing, the volume is at most
  -- its limit, the confidence is at least its threshold, and no flag is a critical mismatch.
  pub evaluate_risk_rules-eq-nil_iff : (triggers ≡ []) ↔ (
      (sanctions_hits ≡ [])
      × (pep_hits ≡ [])
      × (ubo_hits ≡ [])
      × (unavailable ≡ [])
      × (volume ≤ limit_for customer t)
      × (t.confidence ≤ confidence)
      × (any is_critical_mismatch flags ≡ false))
  unfolding evaluate_risk_rules
  evaluate_risk_rules-eq-nil_iff = ground (arith, nonempty-select is_critical_mismatch flags)

  -- The level of the triggers is high when there is a hit or a registry is missing; otherwise it is
  -- medium when the volume, the confidence or a mismatch calls for it, and low when nothing does.
  pub risk_level-evaluate_risk_rules : risk_level triggers ≡ (
      if nonempty sanctions_hits || nonempty pep_hits || nonempty ubo_hits || nonempty unavailable
      then high
      else if ltb (limit_for customer t) volume
          || ltb confidence t.confidence
          || any is_critical_mismatch flags
      then medium
      else low)
  unfolding evaluate_risk_rules risk_level
  risk_level-evaluate_risk_rules =
      simp any-append (
        ground (arith, nonempty-select is_critical_mismatch flags, high-unavailable py unavailable))
