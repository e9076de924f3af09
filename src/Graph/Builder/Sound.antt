-- ===== src/Graph/Builder/Sound.antt =====
-- What keeps a case of graph/builder.py from an uncaught exception: services that honour their
-- contract, and an audit sink that never raises.
pub mod Intake
pub mod Assess
pub mod NoCrash
use kyc_agent_nordvik.Prelude.{
  ◌≡◌, refl, true, Option, some, List, [], ◌++◌, All, All-append, is_some, String,
}
use kyc_agent_nordvik.Audit.Sink.{IsQuiet}
use kyc_agent_nordvik.Llm.Contract.{Classifies, Extracts}
use kyc_agent_nordvik.Rules.Validation.Reading.{IsReadable}
use kyc_agent_nordvik.Schemas.Documents.{ClassifiedDocument, InputDocument}
use kyc_agent_nordvik.Schemas.Case.{KycPackage}
use kyc_agent_nordvik.Schemas.Decisions.{ExtractionResult}
use kyc_agent_nordvik.Graph.State.{KycState, ExtractTask, Update, apply_update}
use kyc_agent_nordvik.Graph.Context.{PipelineContext}
use kyc_agent_nordvik.Graph.Nodes.Base.{
  intake, router, orchestrator, extract_document, validator, risk_scorer, decision_gate,
  auto_decision, human_review, finalize, handle_error, Command,
}
use kyc_agent_nordvik.Graph.Nodes.Lookup.{knows}
use kyc_agent_nordvik.Graph.Builder.{
  Pc, at, fan, waiting, ended, crashed, Slot, todo, ready, Config, target,
}

module _ {W : Type 0} (ctx : PipelineContext W) where
  -- Both services of a context answer for this document as the nodes rely on.
  abbrev pub Serves : InputDocument → Type 0
  Serves document =
      Extracts ctx.python ctx.services.extract document
      × Extracts ctx.python ctx.fallback.extract document

  pub record Honours (p : KycPackage) : Type 0 where
    pub quiet : IsQuiet ctx.audit
    pub classify : Classifies ctx.python ctx.services.classify
    pub classify_fallback : Classifies ctx.python ctx.fallback.classify
    pub serves : All Serves p.documents

  -- An extraction of one of the documents, with fields that the rules can read.
  abbrev pub Fits : KycPackage → ExtractionResult → Type 0
  Fits p e = (knows p.documents e.document_id ≡ true) × IsReadable ctx.python e.fields

  abbrev pub SlotFits : KycPackage → Slot → Type 0
  SlotFits p (todo task) =
      Serves task.document × (knows p.documents task.document.document_id ≡ true)
  SlotFits p (ready u) = All (Fits p) u.extractions

  abbrev pub Sound : KycState → Type 0
  Sound s = Honours s.kyc_package × All (Fits s.kyc_package) s.extractions

  abbrev pub Classified : KycState → Type 0
  Classified s =
      (cl : List ClassifiedDocument) × (s.classified_documents ≡ some cl)
      × All (λ c. knows s.kyc_package.documents c.document_id ≡ true) cl

  abbrev pub SoundAt : KycState → Pc → Type 0
  SoundAt s (at intake) = Sound s
  SoundAt s (at router) = Sound s
  SoundAt s (at orchestrator) = Sound s × Classified s
  SoundAt s (at extract_document) = ⊥
  SoundAt s (at validator) = Sound s
  SoundAt s (at risk_scorer) = Sound s
  SoundAt s (at decision_gate) = Sound s
  SoundAt s (at auto_decision) = Sound s × (is_some s.decision ≡ true)
  SoundAt s (at human_review) = Sound s
  SoundAt s (at finalize) = Sound s × (is_some s.decision ≡ true)
  SoundAt s (at handle_error) = Sound s
  SoundAt s (fan slots) = Sound s × All (SlotFits s.kyc_package) slots
  SoundAt s (waiting values) = Sound s
  SoundAt s ended = Unit
  SoundAt s (crashed c) = ⊥

  abbrev pub UpdateSound : KycState → Pc → Update → Type 0
  UpdateSound s next u = SoundAt (apply_update s u) next

  abbrev pub CommandSound : KycState → Command → Type 0
  CommandSound s c = SoundAt (apply_update s c.update) (target c.goto)

  -- An update keeps a state sound if its extractions fit.
  pub apply_update-Sound :
      (s : KycState) (u : Update)
      → All (Fits s.kyc_package) u.extractions
      → Sound s
      → Sound (apply_update s u)
  unfolding apply_update
  apply_update-Sound s u h (honours, fits) =
      (honours, All-append (Fits s.kyc_package) s.extractions u.extractions fits h)

  -- The case of an update without extractions, with the update applied.
  pub kept :
      (s : KycState)
      → Sound s
      → Honours s.kyc_package × All (Fits s.kyc_package) (s.extractions ++ [])
  kept s (honours, fits) = (honours, All-append (Fits s.kyc_package) s.extractions [] fits tt)
