-- ===== src/Rules/Risk/Gate.antt =====
-- The decision matrix of rules/risk.py.
use kyc_agent_nordvik.Prelude.{
  ◌≡◌, refl, ◌≢◌, ◌↔◌, ◌⊎◌, Bool, true, false, ◌&&◌, ◌||◌, Option, none, List, [], ◌∷◌, map, arith,
  any, any-append, nonempty-select,
}
use kyc_agent_nordvik.Schemas.Ids.{RuleId, elem, same_rule, degraded_to_manual}
use kyc_agent_nordvik.Schemas.Decisions.{RuleFlag, approve, reject, escalate}
use kyc_agent_nordvik.Rules.Risk.{decide_gate, is_expired, rule_id_of, sorted_set}
use kyc_agent_nordvik.Rules.Risk.Codes.{elem-sorted_set}
use kyc_agent_nordvik.Rules.Risk.Triggers.{fired}

-- A case is approved exactly when its package is complete, no document has expired, no escalation
-- trigger fired and the case is not degraded.
pub decide_gate-approve_iff :
    (c : Option RuleFlag) (flags triggers : List RuleFlag) (degraded : Bool)
    → ((decide_gate c flags triggers degraded).outcome ≡ approve)
      ↔ ((c ≡ none) × (any is_expired flags ≡ false) × (triggers ≡ []) × (degraded ≡ false))
unfolding decide_gate
decide_gate-approve_iff c flags triggers degraded = ground (arith, nonempty-select is_expired flags)

-- A case is rejected exactly when it is not degraded and either its package is incomplete, or a
-- document has expired and no escalation trigger fired.
pub decide_gate-reject_iff :
    (c : Option RuleFlag) (flags triggers : List RuleFlag) (degraded : Bool)
    → ((decide_gate c flags triggers degraded).outcome ≡ reject)
      ↔ ((degraded ≡ false) × ((c ≢ none) ⊎ ((any is_expired flags ≡ true) × (triggers ≡ []))))
unfolding decide_gate
decide_gate-reject_iff c flags triggers degraded = ground (arith, nonempty-select is_expired flags)

-- A degraded case is never decided by the system.
pub decide_gate-degraded :
    (c : Option RuleFlag) (flags triggers : List RuleFlag)
    → (decide_gate c flags triggers true).outcome ≡ escalate
unfolding decide_gate
decide_gate-degraded c flags triggers = ground arith

elem-ids : (q : RuleId) (flags : List RuleFlag) → elem q (map rule_id_of flags) ≡ fired q flags
elem-ids q [] = refl
elem-ids q (f ∷ flags) = ground (arith, elem-ids q flags)

-- The reason codes of an escalation are the rules of the triggers, and DEGRADED_TO_MANUAL if the
-- case is degraded, and no other.
pub decide_gate_codes :
    (c : Option RuleFlag) (flags triggers : List RuleFlag) (degraded : Bool)
    → (decide_gate c flags triggers degraded).outcome ≡ escalate
    → (q : RuleId)
    → elem q (decide_gate c flags triggers degraded).reason_codes
      ≡ (fired q triggers || degraded && same_rule degraded_to_manual q)
unfolding decide_gate
decide_gate_codes c flags triggers degraded h q = ground (
  arith,
  any-append (λ s. same_rule s q) (sorted_set (map rule_id_of triggers)) (degraded_to_manual ∷ []),
  any-append (λ s. same_rule s q) (sorted_set (map rule_id_of triggers)) [],
  elem-sorted_set q (map rule_id_of triggers),
  elem-ids q triggers,
)
