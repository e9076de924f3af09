-- ===== src/Graph/Builder/Invariant.antt =====
-- What holds of a case at each point of graph/builder.py.
use kyc_agent_nordvik.Prelude.{
  ◌≡◌, ◌≢◌, ◌⊎◌, inl, inr, true, not, Option, none, some, List, ◌++◌, map, any, nonempty, is_some,
  select, All,
}
use kyc_agent_nordvik.Effects.{Result, ok, crash}
use kyc_agent_nordvik.Effects.Ensures.{IfOk}
use kyc_agent_nordvik.Rules.Validation.{check_package_completeness}
use kyc_agent_nordvik.Schemas.Documents.{ClassifiedDocument, DocumentType}
use kyc_agent_nordvik.Schemas.Case.{KycPackage}
use kyc_agent_nordvik.Schemas.Decisions.{
  ExtractionResult, ValidationReport, RiskAssessment, Decision, human, escalate,
}
use kyc_agent_nordvik.Graph.State.{KycState, Update, apply_update}
use kyc_agent_nordvik.Graph.Context.{PipelineContext}
use kyc_agent_nordvik.Graph.Confidence.{has_error}
use kyc_agent_nordvik.Graph.Nodes.Base.{
  intake, router, orchestrator, extract_document, validator, risk_scorer, decision_gate,
  auto_decision, human_review, finalize, handle_error, Command,
}
use kyc_agent_nordvik.Graph.Nodes.Intake.{is_unknown}
use kyc_agent_nordvik.Graph.Nodes.Score.{ScreeningResult, triggered_by}
use kyc_agent_nordvik.Graph.Nodes.Decide.{gate_decision}
use kyc_agent_nordvik.Graph.Builder.{
  Pc, at, fan, waiting, ended, crashed, Slot, todo, ready, Config, target, after_update,
  after_command,
}

-- A document whose extraction failed has degraded the case.
abbrev pub ErrorsDegrade : {A : Type 0} → List ExtractionResult → List A → Type 0
ErrorsDegrade extractions reasons = any has_error extractions ≡ true → nonempty reasons ≡ true

-- The types of the documents that the router recognised.
abbrev pub known_types : List ClassifiedDocument → List DocumentType
known_types classified = map (λ c. c.doc_type) (select (λ c. not (is_unknown c)) classified)

-- The documents were classified, and those that the customer must hand in are among them.
pub record IsComplete (p : KycPackage) (c : Option (List ClassifiedDocument)) : Type 0 where
  pub documents : List ClassifiedDocument
  pub classified : c ≡ some documents
  pub none_missing : check_package_completeness p.customer_type (known_types documents) ≡ none

abbrev pub SlotInv : Slot → Type 0
SlotInv (todo task) = Unit
SlotInv (ready u) =
    (u.decision ≡ none)
    × (u.risk ≡ none)
    × (u.validation ≡ none)
    × (u.classified_documents ≡ none)
    × ErrorsDegrade u.extractions u.degraded_reasons

module _ {W : Type 0} (ctx : PipelineContext W) where
  -- The risk assessment is the one that the rules give for the validation report and for some
  -- answers of the registries, which it shows.
  pub record IsAssessed (p : KycPackage) (v : Option ValidationReport) (a : Option RiskAssessment)
      : Type 0 where
    pub report : ValidationReport
    pub validated : v ≡ some report
    pub result : ScreeningResult
    pub risk : RiskAssessment
    pub assessed : a ≡ some risk
    pub triggers : risk.triggered_rules ≡ triggered_by ctx p v result
    pub sanctions_shown : risk.sanctions_hits ≡ result.sanctions_hits
    pub pep_shown : risk.pep_hits ≡ result.pep_hits ++ result.ubo_hits

  abbrev pub Undecided : KycState → Type 0
  Undecided s =
      (s.decision ≡ none) × (s.risk ≡ none) × ErrorsDegrade s.extractions s.degraded_reasons

  -- Why a case may come to the gate: it is degraded, or incomplete, or fully assessed.
  abbrev pub Entry : KycState → Type 0
  Entry s =
      ErrorsDegrade s.extractions s.degraded_reasons
      × ((nonempty s.degraded_reasons ≡ true)
          ⊎ ((is_some s.completeness_flag ≡ true)
              ⊎ (IsComplete s.kyc_package s.classified_documents
                  × IsAssessed s.kyc_package s.validation s.risk)))

  abbrev pub ByHuman : KycState → Type 0
  ByHuman s =
      (d : Decision) × (s.decision ≡ some d) × (d.decided_by ≡ human) × (d.outcome ≢ escalate)

  abbrev pub Decided : KycState → Type 0
  Decided s = Entry s × ((s.decision ≡ some (gate_decision s)) ⊎ ByHuman s)

  -- An escalation is decided by a human, and any other decision is the gate's.
  abbrev pub Settled : KycState → Type 0
  Settled s =
      Entry s
      × (((s.decision ≡ some (gate_decision s)) × ((gate_decision s).outcome ≢ escalate))
          ⊎ ByHuman s)

  abbrev pub Escalated : KycState → Type 0
  Escalated s =
      Entry s × (s.decision ≡ some (gate_decision s)) × ((gate_decision s).outcome ≡ escalate)

  abbrev pub PcInv : KycState → Pc → Type 0
  PcInv s (at intake) = Undecided s
  PcInv s (at router) = Undecided s
  PcInv s (at orchestrator) = Undecided s
  PcInv s (at extract_document) = ⊥
  PcInv s (at validator) = Undecided s × IsComplete s.kyc_package s.classified_documents
  PcInv s (at risk_scorer) =
      Undecided s × IsComplete s.kyc_package s.classified_documents × (is_some s.validation ≡ true)
  PcInv s (at handle_error) = Undecided s × (nonempty s.degraded_reasons ≡ true)
  PcInv s (at decision_gate) = (s.decision ≡ none) × Entry s
  PcInv s (at auto_decision) =
      Entry s × (s.decision ≡ some (gate_decision s)) × ((gate_decision s).outcome ≢ escalate)
  PcInv s (at human_review) = Escalated s
  PcInv s (at finalize) = Settled s
  PcInv s (fan slots) =
      Undecided s × IsComplete s.kyc_package s.classified_documents × All SlotInv slots
  PcInv s (waiting values) = Escalated s
  PcInv s ended = Settled s
  PcInv s (crashed c) = (s.decision ≡ none) ⊎ Decided s

  pub Settled-Decided : (s : KycState) → Settled s → Decided s
  Settled-Decided s (h, inl (e, _)) = (h, inl e)
  Settled-Decided s (h, inr d) = (h, inr d)

  abbrev pub Inv : Config W → Type 0
  Inv c = PcInv c.state c.pc

  abbrev pub UpdateInv : KycState → Pc → Update → Type 0
  UpdateInv s next u = PcInv (apply_update s u) next

  abbrev pub CommandInv : KycState → Command → Type 0
  CommandInv s c = PcInv (apply_update s c.update) (target c.goto)

  pub after_update-Inv :
      (s : KycState) (next : Pc) (r : Result Update) (w : W)
      → ((s.decision ≡ none) ⊎ Decided s)
      → IfOk (UpdateInv s next) r
      → Inv (after_update s next r w)
  unfolding after_update
  after_update-Inv s next (ok u) w h k = k
  after_update-Inv s next (crash c) w h k = h

  pub after_command-Inv :
      (s : KycState) (r : Result Command) (w : W)
      → ((s.decision ≡ none) ⊎ Decided s)
      → IfOk (CommandInv s) r
      → Inv (after_command s r w)
  unfolding after_command
  after_command-Inv s (ok c) w h k = k
  after_command-Inv s (crash c) w h k = h
