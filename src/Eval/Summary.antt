-- ===== src/Eval/Summary.antt =====
-- `run_single_case` behind the run of the graph, and `summarize`, of eval/run_eval.py. A share is a
-- number of ten-thousandths: `ratio` stands for `round(a / b, 4)`.
use kyc_agent_nordvik.Prelude.{
  ℕ, ◌+◌, ◌*◌, ◌≤◌, ◌<◌, ◌≡◌, String, Bool, true, false, not, ◌&&◌, ◌==◌, Option, none, some, List,
  [], ◌∷◌, map, length, select, any, leb, ltb, get, put, join, split, if◌then◌else◌,
}
use kyc_agent_nordvik.Effects.{Exception, Outcome, value, raised}
use kyc_agent_nordvik.Schemas.Ids.{value as id_value}
use kyc_agent_nordvik.Schemas.Documents.{FieldValue, text, owners, BeneficialOwner}
use kyc_agent_nordvik.Schemas.Decisions.{
  ExtractionResult, Decision, DecisionOutcome, approve, reject, escalate,
}
use kyc_agent_nordvik.Graph.State.{KycState}
use kyc_agent_nordvik.Graph.Confidence.{has_error}
use kyc_agent_nordvik.Graph.Nodes.Decide.{codes_of}

-- `expected` of a golden case. Its field values are texts.
pub record Expected : Type 0 where
  pub outcome : String
  pub escalation : Bool
  pub reason_codes_include : List String
  pub fields : List (String × List (String × String))

pub record GoldenCase : Type 0 where
  pub case_id : String
  pub typical : Bool
  pub expected : Expected

pub record Row : Type 0 where
  pub case_id : String
  pub typical : Bool
  pub expected_outcome : String
  pub expected_escalation : Bool
  pub predicted_outcome : String
  pub predicted_escalation : Bool
  pub reason_codes : List String
  pub reason_codes_ok : Bool
  pub outcome_ok : Bool
  pub field_total : ℕ
  pub field_correct : ℕ

abbrev outcome_value : DecisionOutcome → String
outcome_value approve = "approve"
outcome_value reject = "reject"
outcome_value escalate = "escalate"

abbrev outcome_or_unknown : Option Decision → String
outcome_or_unknown none = "unknown"
outcome_or_unknown (some d) = outcome_value d.outcome

-- {e.document_id: e for e in extractions}: of two with one id, the later.
unfoldable pub extractions_by_id :
    List (String × ExtractionResult) → List ExtractionResult → List (String × ExtractionResult)
extractions_by_id dict [] = dict
extractions_by_id dict (e ∷ es) = extractions_by_id (put e.document_id e dict) es

abbrev one_if : Bool → ℕ
one_if true = 1
one_if false = 0

-- set(a) <= set(b)
abbrev includes : List String → List String → Bool
includes [] codes = true
includes (a ∷ expected) codes = any (λ c. c == a) codes && includes expected codes

-- `casefold` is Python's; `str_owners` is `str()` of a list of dicts.
module _ (casefold : String → String) (str_owners : List BeneficialOwner → String) where
  abbrev str_value : FieldValue → String
  str_value (text s) = s
  str_value (owners os) = str_owners os

  unfoldable pub normalize : String → String
  unfolding split
  normalize s = join " " (split (casefold s))

  abbrev same_value : Option FieldValue → String → Bool
  same_value none golden = false
  same_value (some v) golden = normalize (str_value v) == normalize golden

  -- Whether one golden field was extracted as it stands.
  abbrev field_ok : Option ExtractionResult → String → String → Bool
  field_ok none field golden = false
  field_ok (some e) field golden = not (has_error e) && same_value (get field e.fields) golden

  unfoldable pub fields_correct : Option ExtractionResult → List (String × String) → ℕ
  unfolding normalize
  fields_correct e [] = 0
  fields_correct e ((field, golden) ∷ fields) =
      one_if (field_ok e field golden) + fields_correct e fields

  unfoldable pub documents_correct :
      List (String × ExtractionResult) → List (String × List (String × String)) → ℕ
  unfolding fields_correct
  documents_correct extractions [] = 0
  documents_correct extractions ((doc_id, fields) ∷ documents) =
      fields_correct (get doc_id extractions) fields + documents_correct extractions documents

  unfoldable pub documents_total : List (String × List (String × String)) → ℕ
  documents_total [] = 0
  documents_total ((doc_id, fields) ∷ documents) = length fields + documents_total documents

  -- The row of a case, from the state in which its run stopped and whether it was interrupted.
  unfoldable pub row_of : GoldenCase → KycState → (escalated : Bool) → Row
  unfolding extractions_by_id documents_correct documents_total
  row_of case' result escalated =
      let predicted = if escalated then "escalate" else outcome_or_unknown result.decision in
      let codes = map id_value (codes_of result.decision) in
      record {
        case_id = case'.case_id;
        typical = case'.typical;
        expected_outcome = case'.expected.outcome;
        expected_escalation = case'.expected.escalation;
        predicted_outcome = predicted;
        predicted_escalation = escalated;
        reason_codes = codes;
        reason_codes_ok = includes case'.expected.reason_codes_include codes;
        outcome_ok = predicted == case'.expected.outcome;
        field_total = documents_total case'.expected.fields;
        field_correct =
            documents_correct (extractions_by_id [] result.extractions) case'.expected.fields;
      }

abbrev pub total : {A : Type 0} → (A → ℕ) → List A → ℕ
total f [] = 0
total f (a ∷ rest) = f a + total f rest

pub record Summary : Type 0 where
  pub cases : ℕ
  pub field_accuracy : Option ℕ
  pub auto_rate_typical : Option ℕ
  pub escalation_recall : Option ℕ
  pub escalation_precision : Option ℕ
  pub decision_accuracy : ℕ
  pub reason_codes_accuracy : ℕ
  pub false_auto_approvals : ℕ

-- What `round(a / b, 4)` gives for a divisor that is not 0: the nearest ten-thousandths.
pub record IsRounding (ratio : ℕ → ℕ → ℕ) : Type 0 where
  pub whole : (n : ℕ) → 0 < n → ratio n n ≡ 10000
  pub lower : (a b : ℕ) → 0 < b → 2 * (ratio a b * b) ≤ 20000 * a + b
  pub upper : (a b : ℕ) → 0 < b → 20000 * a ≤ 2 * (ratio a b * b) + b

abbrev pub should_escalate : List Row → List Row
should_escalate rows = select (λ r. r.expected_escalation) rows

abbrev pub did_escalate : List Row → List Row
did_escalate rows = select (λ r. r.predicted_escalation) rows

abbrev pub true_escalations : List Row → List Row
true_escalations rows = select (λ r. r.expected_escalation) (did_escalate rows)

abbrev pub is_false_approval : Row → Bool
is_false_approval r =
    r.expected_escalation && not r.predicted_escalation && r.predicted_outcome == "approve"

module _ (ratio : ℕ → ℕ → ℕ) where
  abbrev pub ratio_if_any : ℕ → ℕ → Option ℕ
  ratio_if_any a b = if ltb 0 b then some (ratio a b) else none

  -- Of no rows at all, `none`: the ZeroDivisionError of the decision accuracy.
  unfoldable pub summarize : List Row → Option Summary
  summarize [] = none
  summarize (row ∷ others) =
      let rows = row ∷ others in
      let typical = select (λ r. r.typical) rows in
      some (record {
        cases = length rows;
        field_accuracy =
            ratio_if_any (total (λ r. r.field_correct) rows) (total (λ r. r.field_total) rows);
        auto_rate_typical =
            ratio_if_any (length (select (λ r. not r.predicted_escalation) typical))
              (length typical);
        escalation_recall =
            ratio_if_any (length (true_escalations rows)) (length (should_escalate rows));
        escalation_precision =
            ratio_if_any (length (true_escalations rows)) (length (did_escalate rows));
        decision_accuracy = ratio (length (select (λ r. r.outcome_ok) rows)) (length rows);
        reason_codes_accuracy = ratio (length (select (λ r. r.reason_codes_ok) rows)) (length rows);
        false_auto_approvals = length (select is_false_approval rows);
      })

abbrev pub cons_row : Row → Outcome (List Row) → Outcome (List Row)
cons_row row (value rows) = value (row ∷ rows)
cons_row row (raised exc) = raised exc

-- The rows of a run over the cases. `run` is what the graph makes of a case: the state in which it
-- stopped, and whether it was interrupted; or an exception, which ends the evaluation.
module _ (casefold : String → String) (str_owners : List BeneficialOwner → String)
    (run : GoldenCase → Outcome (KycState × Bool)) where
  abbrev pub run_single_case :
      GoldenCase → Outcome (KycState × Bool) → Outcome (List Row) → Outcome (List Row)
  run_single_case case' (raised exc) rest = raised exc
  run_single_case case' (value (result, escalated)) rest =
      cons_row (row_of casefold str_owners case' result escalated) rest

  unfoldable pub run_cases : List GoldenCase → Outcome (List Row)
  unfolding row_of
  run_cases [] = value []
  run_cases (case' ∷ cases) = let rest = run_cases cases in run_single_case case' (run case') rest

-- The summary and the rows; a summary of no rows at all raises `zero_division`.
abbrev summed :
    (zero_division : Exception) → Option Summary → List Row → Outcome (Summary × List Row)
summed zero_division none rows = raised zero_division
summed zero_division (some summary) rows = value (summary, rows)

abbrev pub with_summary :
    (ratio : ℕ → ℕ → ℕ) (zero_division : Exception)
    → Outcome (List Row)
    → Outcome (Summary × List Row)
with_summary ratio zero_division (value rows) = summed zero_division (summarize ratio rows) rows
with_summary ratio zero_division (raised exc) = raised exc

unfoldable pub run_config :
    (ratio : ℕ → ℕ → ℕ) (casefold : String → String) (str_owners : List BeneficialOwner → String)
    (zero_division : Exception)
    → (run : GoldenCase → Outcome (KycState × Bool)) → List GoldenCase
    → Outcome (Summary × List Row)
unfolding summarize run_cases
run_config ratio casefold str_owners zero_division run cases =
    with_summary ratio zero_division (run_cases casefold str_owners run cases)

-- `recall != 1.0` of `main`; `None` is not 1.0.
abbrev pub recall_gate : Option ℕ → ℕ
recall_gate none = 1
recall_gate (some recall) = if leb 10000 recall && leb recall 10000 then 0 else 1

-- The exit code of `main`, by what its calls of `run_config` come to; the full one is left out with
-- `--no-validator`. `none` is an exception that leaves it.
abbrev gate_of : Outcome (Summary × List Row) → Outcome (Summary × List Row) → Option ℕ
gate_of (raised exc) ablation = none
gate_of (value full) (raised exc) = none
gate_of (value (full, _)) (value ablation) = some (recall_gate full.escalation_recall)

abbrev code_of : Outcome (Summary × List Row) → Option ℕ
code_of (raised exc) = none
code_of (value ablation) = some 0

abbrev pub exit_code :
    (no_validator : Bool) (full ablation : Outcome (Summary × List Row)) → Option ℕ
exit_code true full ablation = code_of ablation
exit_code false full ablation = gate_of full ablation
