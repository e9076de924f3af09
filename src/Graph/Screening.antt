-- ===== src/Graph/Screening.antt =====
-- `_screening_names` and `_screen` of graph/nodes.py: whom to look up, and one registry's answers.
pub mod Names
use mathlib.Core.Option
use kyc_agent_nordvik.Prelude.{
  String, Bool, true, false, ◌&&◌, ◌||◌, Option, none, some, List, [], ◌∷◌, ◌++◌, ◌==◌, concat, get,
  truthy, if◌then◌else◌,
}
use kyc_agent_nordvik.Effects.{Run, pure, ◌>>=◌, ◌>>◌}
use kyc_agent_nordvik.Audit.Sink.{registry_error, registry_answer}
use kyc_agent_nordvik.Llm.Base.{PipelineStep}
use kyc_agent_nordvik.Llm.Resilience.{Attempted, succeeded, exhausted}
use kyc_agent_nordvik.Schemas.Documents.{
  DocumentType, id_document, proof_of_address, same_type, FieldValue, text, owners, BeneficialOwner,
}
use kyc_agent_nordvik.Schemas.Case.{KycPackage, CustomerType, individual, business}
use kyc_agent_nordvik.Schemas.Decisions.{ExtractionResult, RegistryHit, registry_value}
use kyc_agent_nordvik.Graph.Confidence.{has_error}
use kyc_agent_nordvik.Graph.State.{KycState}
use kyc_agent_nordvik.Graph.Context.{PipelineContext, RegistryClient}
use kyc_agent_nordvik.Graph.Nodes.Base.{emit, resilient}

-- names[name] = None, in a dictionary that keeps its keys in the order of insertion.
unfoldable pub add_name : String → List String → List String
add_name name [] = name ∷ []
add_name name (other ∷ names) = if other == name then other ∷ names else other ∷ add_name name names

pub record ScreeningNames : Type 0 where
  pub persons : List String
  pub companies : List String
  pub owner_names : List String

abbrev pub is_person_doc : DocumentType → Bool
is_person_doc t = same_type t id_document || same_type t proof_of_address

-- A value that is a `str`, and the truth value of one that may be missing.
abbrev pub text_of : Option FieldValue → Option String
text_of (some (text s)) = some s
text_of (some (owners os)) = none
text_of none = none

abbrev pub nonblank : Option String → Option String
nonblank none = none
nonblank (some s) = if truthy s then some s else none

-- `extraction.fields.get("beneficial_owners") or []`: iterating over a text gives characters,
-- which are no dictionaries.
abbrev pub owners_of : Option FieldValue → List BeneficialOwner
owners_of (some (owners os)) = os
owners_of (some (text s)) = []
owners_of none = []

abbrev pub add_opt : Option String → List String → List String
add_opt none names = names
add_opt (some name) names = add_name name names

unfoldable pub add_owners : List BeneficialOwner → List String → List String
unfolding add_name
add_owners [] names = names
add_owners (o ∷ os) names = add_owners os (add_opt (nonblank o.full_name) names)

-- The body of the loop over the extractions.
unfoldable pub names_of_extraction : ExtractionResult → ScreeningNames → ScreeningNames
unfolding add_owners
names_of_extraction e names = if has_error e then names else record {
  persons =
      if is_person_doc e.doc_type
      then add_opt (text_of (get "full_name" e.fields)) names.persons
      else names.persons;
  companies = add_opt (text_of (get "company_name" e.fields)) names.companies;
  owner_names = add_owners (owners_of (get "beneficial_owners" e.fields)) names.owner_names;
}

unfoldable pub names_of_extractions : List ExtractionResult → ScreeningNames → ScreeningNames
unfolding names_of_extraction
names_of_extractions [] names = names
names_of_extractions (e ∷ es) names = names_of_extractions es (names_of_extraction e names)

abbrev pub declared_company : KycPackage → List String
declared_company p = elim p.customer_type [
  | individual ↦ []
  | business ↦ add_opt (nonblank p.applicant.company_name) []
]

-- What is screened before any extraction is read.
abbrev pub start_names : KycState → ScreeningNames
start_names state = record {
  persons = state.kyc_package.applicant.full_name ∷ [];
  companies = declared_company state.kyc_package;
  owner_names = [];
}

unfoldable pub screening_names : KycState → ScreeningNames
unfolding names_of_extractions
screening_names state = names_of_extractions state.extractions (start_names state)

module _ {W : Type 0} (ctx : PipelineContext W) (client : RegistryClient W) (case_id : String) where
  -- The loop, with the hits found so far; the Boolean says whether the registry answered.
  unfoldable pub screen_from : List RegistryHit → List String → Run W (List RegistryHit × Bool)
  screen_from hits [] = pure (hits, true)
  screen_from hits (name ∷ names) = do
    answer ←
        resilient ctx PipelineStep.risk (concat ("risk:" ∷ registry_value client.registry ∷ []))
          (client.search name) none
    elim answer [
      | exhausted _ _ ↦ do
        emit ctx case_id "risk_scorer" "error"
            (registry_error client.registry "registry unavailable after retries")
        pure (hits, false)
      | succeeded found _ ↦ do
        emit ctx case_id "risk_scorer" "registry_checked"
            (registry_answer client.registry name found)
        screen_from (hits ++ found) names
    ]

  unfoldable pub screen : List String → Run W (List RegistryHit × Bool)
  unfolding screen_from
  screen = screen_from []
