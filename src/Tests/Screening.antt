-- ===== src/Tests/Screening.antt =====
-- Witnesses for the screening of names and the risk scorer of graph/nodes.py.
use kyc_agent_nordvik.Prelude.{refl, inl, none, some, [], ◌∷◌}
use kyc_agent_nordvik.Effects.Ensures.{Ensures, Returns}
use kyc_agent_nordvik.Audit.Sink.{IsQuiet}
use kyc_agent_nordvik.Schemas.Documents.{
  id_document, ubo_declaration, BeneficialOwner, text, owners,
}
use kyc_agent_nordvik.Schemas.Decisions.{ExtractionResult, Registry, sanctions, pep}
use kyc_agent_nordvik.Graph.State.{KycState, initial_state}
use kyc_agent_nordvik.Graph.Context.{PipelineContext, RegistryClient}
use kyc_agent_nordvik.Graph.Nodes.Score.{run_risk_scorer}
use kyc_agent_nordvik.Graph.Nodes.Score.Outage.{ReportsOutage, risk_scorer-ReportsOutage}
use kyc_agent_nordvik.Graph.Nodes.Score.Hits.{Escalates}
use kyc_agent_nordvik.Graph.Nodes.Score.Named.{document_name-Escalates, owner_name-Escalates}
use kyc_agent_nordvik.Schemas.Ids
use kyc_agent_nordvik.Samples.{
  answer, context_with, outage, package_of, anna, reading, unread, id_fields,
}

abbrev carl : BeneficialOwner
carl = record { full_name = some "Carl Dahl"; date_of_birth = none; ownership_percent = some 60 }

abbrev passport_read : ExtractionResult
passport_read = reading "d1" id_document (id_fields "2026-01-31")

abbrev declaration_read : ExtractionResult
declaration_read =
    reading "d3" ubo_declaration
      (("company_name", text "Berg AB") ∷ ("beneficial_owners", owners (carl ∷ [])) ∷ [])

abbrev read_state : KycState
read_state = record (initial_state "case-3" (package_of anna)) {
  extractions = passport_read ∷ unread "d2" id_document ∷ declaration_read ∷ [];
}

outage-IsQuiet : IsQuiet outage.audit
outage-IsQuiet event w = refl

risk_scorer-ReportsOutage_example :
    Ensures (run_risk_scorer outage read_state) (Returns ReportsOutage)
risk_scorer-ReportsOutage_example =
    risk_scorer-ReportsOutage outage read_state outage-IsQuiet (inl (λ name w. (_, refl)))

-- A registry that finds every name.
abbrev finds_all : Registry → RegistryClient (Unit {0})
finds_all r = record {
  registry = r;
  search = λ name.
      answer
        (record { registry = r; matched_name = name; score = 1000000; list_entry = "X-1" } ∷ []);
}

abbrev watched : PipelineContext (Unit {0})
watched = context_with (finds_all sanctions) (finds_all pep)

document_name-Escalates_example :
    Ensures (run_risk_scorer watched read_state) (Returns (Escalates Ids.pep_match))
document_name-Escalates_example =
    document_name-Escalates watched read_state [] (unread "d2" id_document ∷ declaration_read ∷ [])
      passport_read "Anna Berg" pep (λ event w. refl) refl (refl, inl refl, refl) (λ w. refl)

owner_name-Escalates_example :
    Ensures (run_risk_scorer watched read_state) (Returns (Escalates Ids.ubo_sanctions_or_pep))
owner_name-Escalates_example =
    owner_name-Escalates watched read_state (passport_read ∷ unread "d2" id_document ∷ []) []
      declaration_read "Carl Dahl" (λ event w. refl) refl (refl, ([], carl, [], refl, refl), refl)
      (inl (λ w. refl))
