-- ===== src/Graph/Confidence/Caps.antt =====
-- What `_overall_confidence` of graph/nodes.py can reach.
use kyc_agent_nordvik.Prelude.{ℕ, ◌≤◌, ◌*◌, ◌≡◌, true, List, any, nonempty, arith, min}
use kyc_agent_nordvik.Python.{percent, round4, unit}
use kyc_agent_nordvik.Schemas.Decisions.{RuleFlag, ExtractionResult}
use kyc_agent_nordvik.Graph.Confidence.{overall_confidence, has_error}

-- Rounding to four decimals does not pass a bound that has at most four.
round4-le : (x n : ℕ) → x ≤ 100 * n → round4 x ≤ 100 * n
unfolding round4
round4-le x n h = ground arith

capped : (x n : ℕ) → x ≤ 100 * n → min unit (round4 x) ≤ 100 * n
capped x n h = omega (arith, round4-le x n h)

-- If the grounding check has a flag, the overall confidence is at most 0.4.
pub overall_confidence-le_grounding :
    (extractions : List ExtractionResult) (grounding_flags all_flags : List RuleFlag)
    → nonempty grounding_flags ≡ true
    → overall_confidence extractions grounding_flags all_flags ≤ percent 40
unfolding overall_confidence
overall_confidence-le_grounding extractions grounding_flags all_flags h =
    capped _ 4000 (ground arith)

-- If an extraction has an error, the overall confidence is at most 0.5.
pub overall_confidence-le_error :
    (extractions : List ExtractionResult) (grounding_flags all_flags : List RuleFlag)
    → any has_error extractions ≡ true
    → overall_confidence extractions grounding_flags all_flags ≤ percent 50
unfolding overall_confidence
overall_confidence-le_error extractions grounding_flags all_flags h = capped _ 5000 (ground arith)
