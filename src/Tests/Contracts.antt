-- ===== src/Tests/Contracts.antt =====
-- Witnesses for the services of llm/ and the context of graph/context.py.
use kyc_agent_nordvik.Prelude.{◌≡◌, refl, true, none, [], any}
use kyc_agent_nordvik.Python.{Score}
use kyc_agent_nordvik.Effects.{Outcome, value}
use kyc_agent_nordvik.Schemas.Documents.{ubo_declaration, id_document}
use kyc_agent_nordvik.Schemas.Fields.{SchemaOf}
use kyc_agent_nordvik.Schemas.Documents.{
  DocumentType, proof_of_address, business_registration, unknown,
}
use kyc_agent_nordvik.Llm.Contract.{Answers}
use kyc_agent_nordvik.Llm.Live.{ChatModel, live_extract}
use kyc_agent_nordvik.Llm.Contract.LiveServices.{live_extract-ubo_error}
use kyc_agent_nordvik.Llm.Fake.Evaluator.{fake_verify}
use kyc_agent_nordvik.Llm.Fake.Grounding.{has_flags, is_ungrounded, fake_verify-flags_iff}
use kyc_agent_nordvik.Llm.Factory.{ModelRequest, extractor_for}
use kyc_agent_nordvik.Llm.Factory.Typed.{ExtractsTyped, extractor_for-ExtractsTyped}
use kyc_agent_nordvik.Graph.Context.{default_settings}
use kyc_agent_nordvik.Graph.Assembly.{build_context, build_context-Honours}
use kyc_agent_nordvik.Graph.Builder.Sound.{Honours}
use kyc_agent_nordvik.Samples.{
  plain_python, passport, bill, package_of, anna, today, silent, answer, broken, reading, id_fields,
}
use kyc_agent_nordvik.Tests.Dates.{dated_python, dated-PrintsDates}
use kyc_agent_nordvik.Tests.Incomplete.{no_patterns}

-- A model that finds nothing in any document.
abbrev found_nothing : (t : DocumentType) → SchemaOf t → Unit {0}
found_nothing t r = tt

abbrev blind_model : ChatModel (Unit {0})
blind_model = record {
  classifications = λ method prompt. answer [];
  fields = λ method. elim [
    | id_document ↦ λ prompt. answer (record {
      full_name = none;
      date_of_birth = none;
      document_number = none;
      expiry_date = none;
      nationality = none;
    })
    | proof_of_address ↦ λ prompt.
        answer (record { full_name = none; address = none; issue_date = none; issuer = none })
    | business_registration ↦ λ prompt. answer (record {
      company_name = none;
      registration_number = none;
      registration_date = none;
      legal_form = none;
      registered_address = none;
    })
    | ubo_declaration ↦ λ prompt. answer (record { company_name = none; beneficial_owners = [] })
    | unknown ↦ λ prompt. broken
  ];
  discrepancies = λ method prompt. answer [];
  content = λ prompt. answer "";
  dump_json = λ e. "";
}

live_extract-ubo_error_example :
    Answers
      (λ r. r.extraction_error ≡ none)
      (live_extract plain_python blind_model none passport ubo_declaration tt).0
live_extract-ubo_error_example = live_extract-ubo_error plain_python blind_model none passport tt

fake_verify-flags_iff_example :
    has_flags
      (fake_verify plain_python no_patterns bill
        (reading "d2" id_document (id_fields "2026-01-31"))
        tt).0
    ≡ any (is_ungrounded plain_python no_patterns bill) (id_fields "2026-01-31")
fake_verify-flags_iff_example =
    fake_verify-flags_iff plain_python no_patterns bill
      (reading "d2" id_document (id_fields "2026-01-31")) tt

abbrev models : ModelRequest → Outcome (ChatModel (Unit {0}))
models request = value blind_model

abbrev never_fails : Unit {0} → Score × Unit {0}
never_fails w = (500000, w)

build_context-Honours_example :
    Answers
      (λ ctx. Honours ctx (package_of anna))
      (build_context dated_python no_patterns models never_fails never_fails silent today
        (λ w. 0)
        (record default_settings { extractor_model = "openai:gpt-4o" })
        none
        none
        true)
build_context-Honours_example =
    build_context-Honours dated_python no_patterns models never_fails never_fails silent today
      (λ w. 0) (record default_settings { extractor_model = "openai:gpt-4o" }) none none true
      (package_of anna) dated-PrintsDates (refl, (refl, tt))

extractor_for-ExtractsTyped_example :
    Answers
      (ExtractsTyped plain_python no_patterns models passport)
      (extractor_for plain_python no_patterns models "openai:gpt-4o" default_settings)
extractor_for-ExtractsTyped_example =
    extractor_for-ExtractsTyped plain_python no_patterns models default_settings "openai:gpt-4o"
      passport refl
