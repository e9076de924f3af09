-- ===== src/Tests/Documents.antt =====
-- Witnesses for rules/validation.py and the confidence of graph/nodes.py.
use kyc_agent_nordvik.Prelude.{◌≡◌, refl, ◌≤◌, [], ◌∷◌, split, arith, eq_refl}
use kyc_agent_nordvik.Python.{percent, IsLawful}
use kyc_agent_nordvik.Effects.{Crash, crash}
use kyc_agent_nordvik.Schemas.Ids
use kyc_agent_nordvik.Schemas.Documents.{id_document, proof_of_address}
use kyc_agent_nordvik.Schemas.Decisions.{RuleFlag, ExtractionResult, critical}
use kyc_agent_nordvik.Rules.Validation.{normalize_text}
use kyc_agent_nordvik.Graph.State.{KycState, initial_state}
use kyc_agent_nordvik.Graph.Confidence.{overall_confidence}
use kyc_agent_nordvik.Graph.Confidence.Caps.{overall_confidence-le_grounding}
use kyc_agent_nordvik.Graph.Nodes.Validate.{run_validator}
use kyc_agent_nordvik.Graph.Nodes.Validate.Malformed.{validator-crash}
use kyc_agent_nordvik.Samples.{
  plain_python, anna, package_of, context, reading, unread, id_fields, bill_fields,
}

plain_python-IsLawful : IsLawful plain_python
plain_python-IsLawful = record { ratio_self = λ a. ground (arith, eq_refl a) }

same_words : normalize_text plain_python "Anna  Berg" ≡ normalize_text plain_python "Anna Berg "
unfolding normalize_text split
same_words = refl

abbrev passport_read : ExtractionResult
passport_read = reading "d1" id_document (id_fields "2026-01-31")

abbrev bill_read : ExtractionResult
bill_read = reading "d2" proof_of_address bill_fields

abbrev bill_unread : ExtractionResult
bill_unread = unread "d2" proof_of_address

abbrev misread : ExtractionResult
misread = reading "d1" id_document (id_fields "31 January 2026")

abbrev misread_state : KycState
misread_state = record (initial_state "case-2" (package_of anna)) {
  extractions = misread ∷ bill_read ∷ [];
}

validator-crash_example : (c : Crash) × ((run_validator context misread_state tt).0 ≡ crash c)
validator-crash_example =
    validator-crash context misread_state [] (bill_read ∷ []) misread "31 January 2026" refl refl
      refl refl refl refl tt

abbrev ungrounded : RuleFlag
ungrounded = record {
  rule_id = Ids.evaluator_discrepancy;
  severity = critical;
  details = "full_name is not in the document";
}

overall_confidence-le_grounding_example :
    overall_confidence (passport_read ∷ []) (ungrounded ∷ []) (ungrounded ∷ []) ≤ percent 40
overall_confidence-le_grounding_example =
    overall_confidence-le_grounding (passport_read ∷ []) (ungrounded ∷ []) (ungrounded ∷ []) refl
