-- ===== src/Graph/Confidence.antt =====
-- `_overall_confidence` of graph/nodes.py.
pub mod Caps
use kyc_agent_nordvik.Prelude.{
  ℕ, ◌+◌, ◌-◌, ◌*◌, ◌≤◌, ◌≡◌, refl, String, Bool, true, false, Option, none, List, [], ◌∷◌, ◌++◌,
  map, min, max, select, any, nonempty, length, is_some, not, if◌then◌else◌, arith,
}
use kyc_agent_nordvik.Python.{Score, unit, percent, round4, round4-le-unit}
use kyc_agent_nordvik.Schemas.Decisions.{RuleFlag, Severity, warning, critical, ExtractionResult}

-- min(values, default=d)
abbrev pub minimum : Score → List Score → Score
minimum d [] = d
minimum d (x ∷ []) = x
minimum d (x ∷ y ∷ ys) = min x (minimum d (y ∷ ys))

abbrev confidence_values : List (String × Score) → List Score
confidence_values [] = []
confidence_values ((_, c) ∷ rest) = c ∷ confidence_values rest

-- [c for e in extractions if e.extraction_error is None for c in e.field_confidence.values()]
field_confidences : List ExtractionResult → List Score
field_confidences [] = []
field_confidences (e ∷ es) =
    (if is_some e.extraction_error then [] else confidence_values e.field_confidence)
    ++ field_confidences es

abbrev pub is_warning : RuleFlag → Bool
is_warning f = elim f.severity [ warning ↦ true | critical ↦ false ]

abbrev pub has_error : ExtractionResult → Bool
has_error e = is_some e.extraction_error

-- The subtraction stops at 0 here; in the program it may pass below 0, and `max(0.0, …)` then
-- brings it back to 0.
unfoldable pub overall_confidence :
    (extractions : List ExtractionResult) (grounding_flags all_flags : List RuleFlag) → Score
unfolding field_confidences
overall_confidence extractions grounding_flags all_flags =
    let base = minimum (percent 30) (field_confidences extractions) in
    let grounded = if nonempty grounding_flags then min base (percent 40) else base in
    let readable = if any has_error extractions then min grounded (percent 50) else grounded in
    let warnings = length (select is_warning all_flags) in
    min unit (round4 (readable - percent 5 * min warnings 3))
