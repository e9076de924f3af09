-- ===== src/Llm/Live/Evaluator.antt =====
-- LiveEvaluator and LiveRiskNarrator of llm/live.py.
use kyc_agent_nordvik.Prelude.{String, Option, List, [], ◌∷◌, ◌++◌, map, concat, join, take_chars}
use kyc_agent_nordvik.Python.{Python}
use kyc_agent_nordvik.Effects.{Call}
use kyc_agent_nordvik.Schemas.Ids
use kyc_agent_nordvik.Schemas.Ids.{value as id_value}
use kyc_agent_nordvik.Schemas.Case.{ApplicantDeclared}
use kyc_agent_nordvik.Schemas.Documents.{type_value, InputDocument}
use kyc_agent_nordvik.Schemas.Decisions.{ExtractionResult, RuleFlag, critical, severity_value}
use kyc_agent_nordvik.Llm.Live.{ChatModel, Discrepancy, max_doc_chars, map_call}

abbrev evaluator_system : String
evaluator_system =
    "You are a compliance QA agent verifying another agent's extraction. For every extracted field value, check it literally appears in the source document (allowing case and whitespace differences; for dates allow format differences). Report a discrepancy for every value that is NOT grounded in the document. Report nothing else."

abbrev narrator_system : String
narrator_system =
    "You are writing an audit-trail rationale for a KYC decision. Summarize the triggered rules and validation flags in precise, neutral compliance language. Do not invent facts; reference only the provided flags. 120 words maximum."

abbrev pub discrepancy_flag :
    (py_repr : String → String) → ExtractionResult → Discrepancy → RuleFlag
discrepancy_flag repr extraction d = record {
  rule_id = Ids.evaluator_discrepancy;
  severity = critical;
  details = concat (
      type_value extraction.doc_type
      ∷ "/"
      ∷ extraction.document_id
      ∷ ": "
      ∷ d.field
      ∷ "="
      ∷ repr d.extracted_value
      ∷ " — "
      ∷ d.reason
      ∷ []);
}

module _ {W : Type 0} (py : Python) (model : ChatModel W) (method : Option String) where
  unfoldable pub live_verify : InputDocument → ExtractionResult → Call W (List RuleFlag)
  live_verify document extraction = map_call (map (discrepancy_flag py.repr extraction)) (
      model.discrepancies method (record {
        system = evaluator_system;
        user = concat (
            "<document>\n"
            ∷ take_chars max_doc_chars document.text_content
            ∷ "\n</document>\n\n<extraction>\n"
            ∷ model.dump_json extraction
            ∷ "\n</extraction>"
            ∷ []);
      }))

abbrev trigger_line : RuleFlag → String
trigger_line f = concat ("TRIGGER " ∷ id_value f.rule_id ∷ ": " ∷ f.details ∷ [])

abbrev flag_line : RuleFlag → String
flag_line f =
    concat
      ("FLAG " ∷ id_value f.rule_id ∷ " [" ∷ severity_value f.severity ∷ "]: " ∷ f.details ∷ [])

unfoldable pub live_narrate :
    {W : Type 0}
    → ChatModel W
    → ApplicantDeclared
    → (triggered flags : List RuleFlag) → Call W String
live_narrate model applicant triggered flags = model.content (record {
  system = narrator_system;
  user = join "\n" (
      (concat ("Applicant: " ∷ applicant.full_name ∷ []) ∷ map trigger_line triggered)
      ++ map flag_line flags);
})
