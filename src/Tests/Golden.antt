-- ===== src/Tests/Golden.antt =====
-- The golden set of eval/generate_golden_set.py, and a document of it.
use kyc_agent_nordvik.Prelude.{
  ◌≡◌, refl, ◌↔◌, String, Bool, false, not, ◌&&◌, some, List, [], ◌∷◌, any, contains,
}
use kyc_agent_nordvik.Python.{percent}
use kyc_agent_nordvik.Effects.{Outcome, value, raised}
use kyc_agent_nordvik.Schemas.Documents.{BeneficialOwner}
use kyc_agent_nordvik.Schemas.Case.{individual}
use kyc_agent_nordvik.Graph.State.{KycState, initial_state}
use kyc_agent_nordvik.Llm.Fake.{fake_classify}
use kyc_agent_nordvik.Eval.Summary.{GoldenCase, exit_code}
use kyc_agent_nordvik.Eval.Golden.Cases.{
  golden_set, evaluated, failed, stopped, is_for_human, golden_set-exit_code,
}
use kyc_agent_nordvik.Eval.Golden.Routed.{
  UpperCases, Printed, card, type_of, keywords_before, text_of, fake_classify-printed,
}
use kyc_agent_nordvik.Samples.{plain_python, package_of, anna}
use kyc_agent_nordvik.Tests.Incomplete.{no_patterns}
use kyc_agent_nordvik.Tests.Metrics.{no_rows, nearest, nearest-IsRounding}

abbrev as_it_is : String → String
as_it_is s = s

abbrev no_owners : List BeneficialOwner → String
no_owners os = "[]"

-- A run that stops as it is expected to, and one that raises.
abbrev as_expected : GoldenCase → Outcome (KycState × Bool)
as_expected c = value (initial_state c.case_id (package_of anna), c.expected.escalation)

abbrev always_raises : GoldenCase → Outcome (KycState × Bool)
always_raises c = raised no_rows

golden_set-exit_code_example :
    (exit_code false
        (evaluated nearest as_it_is no_owners no_rows as_expected (golden_set plain_python))
        (evaluated nearest as_it_is no_owners no_rows always_raises (golden_set plain_python))
      ≡ some 0)
    ↔ ((any (λ c. failed (as_expected c)) (golden_set plain_python) ≡ false)
        × (any (λ c. failed (always_raises c)) (golden_set plain_python) ≡ false)
        × (any (λ c. is_for_human c && not (stopped (as_expected c))) (golden_set plain_python)
            ≡ false))
golden_set-exit_code_example =
    golden_set-exit_code nearest as_it_is no_owners no_rows plain_python as_expected always_raises
      nearest-IsRounding

-- A Python whose texts are all capitals already.
plain-UpperCases : UpperCases plain_python.upper
plain-UpperCases = record {
  appends = λ a b. refl;
  ubo = refl;
  registration = refl;
  card = refl;
  bill = refl;
  statement = refl;
}

abbrev anna_card : Printed
anna_card =
    card "Anna Virtanen" "14.03.1991" "FIN-8842517" "01.05.2030" "REPUBLIC OF FINLAND" "FI" ""

no_keyword_before :
    any
      (λ k. contains k (plain_python.upper (text_of plain_python anna_card)))
      (keywords_before (type_of anna_card))
    ≡ false
unfolding contains
no_keyword_before = refl

fake_classify-printed_example :
    (fake_classify plain_python no_patterns
      (record {
        document_id = "doc-id";
        file_name = "id.pdf";
        text_content = text_of plain_python anna_card;
      }
        ∷ [])
      individual
      tt).0
    ≡ value (
        record {
          document_id = "doc-id";
          doc_type = type_of anna_card;
          classifier_confidence = percent 98;
        }
        ∷ [])
fake_classify-printed_example =
    fake_classify-printed plain_python plain-UpperCases no_patterns anna_card "doc-id" "id.pdf"
      individual (tt {0}) no_keyword_before
