-- ===== src/Tests/Rules.antt =====
-- Witnesses for rules/risk.py.
use kyc_agent_nordvik.Prelude.{
  ◌≡◌, ◌≢◌, ◌↔◌, ◌⊎◌, refl, ◌*◌, Bool, true, false, Option, none, List, [], ◌∷◌, any,
}
use kyc_agent_nordvik.Python.{percent}
use kyc_agent_nordvik.Schemas.Ids
use kyc_agent_nordvik.Schemas.Ids.{elem}
use kyc_agent_nordvik.Schemas.Case.{individual, euro}
use kyc_agent_nordvik.Schemas.Decisions.{
  RuleFlag, critical, warning, approve, reject, escalate, sanctions,
}
use kyc_agent_nordvik.Rules.Risk.{decide_gate, evaluate_risk_rules, is_expired}
use kyc_agent_nordvik.Rules.Risk.Gate.{
  decide_gate-approve_iff, decide_gate-reject_iff, decide_gate_codes,
}
use kyc_agent_nordvik.Rules.Risk.Triggers.{fired, fired-evaluate_risk_rules}
use kyc_agent_nordvik.Graph.Nodes.Score.{risk_thresholds}
use kyc_agent_nordvik.Graph.Context.{default_settings}
use kyc_agent_nordvik.Samples.{plain_python}

abbrev expired : RuleFlag
expired = record { rule_id = Ids.doc_expired; severity = critical; details = "expired" }

abbrev volume_flag : RuleFlag
volume_flag = record { rule_id = Ids.high_volume; severity = warning; details = "volume" }

decide_gate-approve_iff_example : ((decide_gate none [] [] false).outcome ≡ approve) ↔ (
    (◌≡◌ {A = Option RuleFlag} none none)
    × (any is_expired [] ≡ false)
    × (◌≡◌ {A = List RuleFlag} [] [])
    × (◌≡◌ {A = Bool} false false))
decide_gate-approve_iff_example = decide_gate-approve_iff none [] [] false

decide_gate-reject_iff_example : ((decide_gate none (expired ∷ []) [] false).outcome ≡ reject) ↔ (
    (◌≡◌ {A = Bool} false false)
    × ((◌≢◌ {A = Option RuleFlag} none none)
        ⊎ ((any is_expired (expired ∷ []) ≡ true) × (◌≡◌ {A = List RuleFlag} [] []))))
decide_gate-reject_iff_example = decide_gate-reject_iff none (expired ∷ []) [] false

escalated : (decide_gate none (expired ∷ []) (volume_flag ∷ []) true).outcome ≡ escalate
unfolding decide_gate
escalated = refl

decide_gate_codes_example :
    elem Ids.degraded_to_manual
      (decide_gate none (expired ∷ []) (volume_flag ∷ []) true).reason_codes
    ≡ true
decide_gate_codes_example =
    decide_gate_codes none (expired ∷ []) (volume_flag ∷ []) true escalated Ids.degraded_to_manual

abbrev triggers : List RuleFlag
triggers =
    evaluate_risk_rules plain_python individual (20000 * euro) (percent 90) [] [] [] []
      (sanctions ∷ []) (risk_thresholds default_settings)

fired-evaluate_risk_rules_example : fired Ids.high_volume triggers ≡ true
fired-evaluate_risk_rules_example =
    fired-evaluate_risk_rules plain_python individual (20000 * euro) (percent 90) [] [] [] []
      (sanctions ∷ []) (risk_thresholds default_settings) Ids.high_volume
