-- ===== src/Graph/Nodes/Score/Named.antt =====
-- `risk_scorer` of graph/nodes.py on the names of documents and owners that a registry lists.
use kyc_agent_nordvik.Prelude.{
  ◌≡◌, ◌∙◌, ap, ◌⊎◌, inl, inr, String, true, ◌||◌, eq_refl, is_some, none, some, List, [], ◌∷◌,
  ◌++◌, arith, get, truthy,
}
use kyc_agent_nordvik.Effects.Ensures.{Ensures, bind-IfOk, Returns, Returns-of}
use kyc_agent_nordvik.Audit.Sink.{IsQuiet}
use kyc_agent_nordvik.Schemas.Ids
use kyc_agent_nordvik.Schemas.Ids.{RuleId}
use kyc_agent_nordvik.Schemas.Documents.{
  DocumentType, id_document, proof_of_address, text, owners, BeneficialOwner,
}
use kyc_agent_nordvik.Schemas.Decisions.{Registry, sanctions, pep, ExtractionResult}
use kyc_agent_nordvik.Graph.State.{KycState}
use kyc_agent_nordvik.Graph.Context.{PipelineContext, RegistryClient}
use kyc_agent_nordvik.Graph.Screening.{
  screening_names, is_person_doc, add_name, add_opt, nonblank, owners_of,
}
use kyc_agent_nordvik.Graph.Screening.Names.{
  has, names_owner, owner-screened, document_name-screened,
}
use kyc_agent_nordvik.Graph.Nodes.Score.Answers.{risk_scorer-Returns}
use kyc_agent_nordvik.Graph.Nodes.Score.{run_risk_scorer}
use kyc_agent_nordvik.Graph.Nodes.Score.Hits.{
  Lists, Escalates, screen_all-sanctions, screen_all-pep, screen_all-owners, sanctions-Escalates,
  pep-Escalates, owner-Escalates,
}

itself : (name : String) → truthy name ≡ true → has name (add_opt (nonblank (some name)) []) ≡ true
unfolding add_name
itself name t = rw t (ground (arith, eq_refl name))

module _ {W : Type 0} (ctx : PipelineContext W) (s : KycState) where
  -- The extraction was read, from an identity document or a proof of address, and has this name.
  abbrev pub Names : ExtractionResult → String → Type 0
  Names e name =
      (e.extraction_error ≡ none)
      × ((e.doc_type ≡ id_document) ⊎ (e.doc_type ≡ proof_of_address))
      × (get "full_name" e.fields ≡ some (text name))

  -- The extraction was read and has an owner of this name, which is not empty.
  abbrev pub NamesOwner : ExtractionResult → String → Type 0
  NamesOwner e name =
      (e.extraction_error ≡ none)
      × ((left : List BeneficialOwner) × (o : BeneficialOwner) × (right : List BeneficialOwner)
          × (get "beneficial_owners" e.fields ≡ some (owners (left ++ o ∷ right)))
          × (o.full_name ≡ some name))
      × (truthy name ≡ true)

  person_doc :
      (t : DocumentType) → (t ≡ id_document) ⊎ (t ≡ proof_of_address) → is_person_doc t ≡ true
  person_doc t (inl e) = ap is_person_doc e
  person_doc t (inr e) = ap is_person_doc e

  named :
      (before after : List ExtractionResult) (e : ExtractionResult) (name : String)
      → s.extractions ≡ before ++ e ∷ after
      → Names e name
      → has name (screening_names s).persons ≡ true
  named before after e name at_place (read, doc, f) =
      document_name-screened s before after e name at_place (ap is_some read)
        (person_doc e.doc_type doc) f

  -- The registry client, and the rule that tells of a hit of it.
  abbrev pub client_for : Registry → RegistryClient W
  client_for sanctions = ctx.sanctions
  client_for pep = ctx.pep

  abbrev pub rule_for : Registry → RuleId
  rule_for sanctions = Ids.sanctions_hit
  rule_for pep = Ids.pep_match

  -- If the audit sink never raises, and an extraction of the case that was read, from an identity
  -- document or a proof of address, has a full name that the sanctions or the PEP registry lists,
  -- then the risk scorer returns an assessment with the trigger of this registry, SANCTIONS_HIT or
  -- PEP_MATCH, or with REGISTRY_UNAVAILABLE. A registry lists a name if each search for it fails or
  -- answers with a hit.
  pub document_name-Escalates :
      (before after : List ExtractionResult) (e : ExtractionResult) (name : String)
      (registry : Registry)
      → IsQuiet ctx.audit
      → s.extractions ≡ before ++ e ∷ after
      → Names e name
      → Lists (client_for registry) name
      → Ensures (run_risk_scorer ctx s) (Returns (Escalates (rule_for registry)))
  unfolding run_risk_scorer
  document_name-Escalates before after e name sanctions quiet at_place h l =
      Returns-of (run_risk_scorer ctx s) (risk_scorer-Returns ctx quiet s) (
        bind-IfOk _ _
          (screen_all-sanctions ctx s (screening_names s) name l
            (named before after e name at_place h))
          (λ r k. sanctions-Escalates ctx s r k))
  document_name-Escalates before after e name pep quiet at_place h l =
      Returns-of (run_risk_scorer ctx s) (risk_scorer-Returns ctx quiet s) (
        bind-IfOk _ _
          (screen_all-pep ctx s (screening_names s) name l (named before after e name at_place h))
          (λ r k. pep-Escalates ctx s r k))

  owner_named :
      (left : List BeneficialOwner) (o : BeneficialOwner) (right : List BeneficialOwner)
      (name : String)
      → o.full_name ≡ some name
      → truthy name ≡ true
      → names_owner name (left ++ o ∷ right) ≡ true
  owner_named [] o right name e t =
      ap (λ b. b || names_owner name right)
        (ap (λ n. has name (add_opt (nonblank n) [])) e ∙ itself name t)
  owner_named (x ∷ left) o right name e t = ground (arith, owner_named left o right name e t)

  -- If the audit sink never raises, and an extraction of the case that was read has a beneficial
  -- owner with a name that is not empty and that the sanctions registry lists, or the PEP registry,
  -- then the risk scorer returns an assessment with the trigger UBO_SANCTIONS_OR_PEP or
  -- REGISTRY_UNAVAILABLE. A registry lists a name if each search for it fails or answers with a hit.
  pub owner_name-Escalates :
      (before after : List ExtractionResult) (e : ExtractionResult) (name : String)
      → IsQuiet ctx.audit
      → s.extractions ≡ before ++ e ∷ after
      → NamesOwner e name
      → Lists ctx.sanctions name ⊎ Lists ctx.pep name
      → Ensures (run_risk_scorer ctx s) (Returns (Escalates Ids.ubo_sanctions_or_pep))
  unfolding run_risk_scorer
  owner_name-Escalates before after e name quiet at_place (read, (left, o, right, f, g), t) l =
      let listed =
        owner-screened s before after e name at_place (ap is_some read)
          (ap (λ v. names_owner name (owners_of v)) f ∙ owner_named left o right name g t) in
      Returns-of (run_risk_scorer ctx s) (risk_scorer-Returns ctx quiet s) (
        bind-IfOk _ _ (screen_all-owners ctx s (screening_names s) name l listed)
          (λ r k. owner-Escalates ctx s r k))
