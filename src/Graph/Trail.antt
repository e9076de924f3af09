-- ===== src/Graph/Trail.antt =====
-- The audit trail that the nodes of graph/nodes.py leave: what the trail needs of the outside world,
-- and the events that tell of a decision.
pub mod Grows
pub mod Assess
pub mod Events
pub mod Tells
pub mod Ends
pub mod Appends
pub mod Complete
use mathlib.Core.List.{append-nil, append_assoc}
use kyc_agent_nordvik.Prelude.{ℕ, ◌≡◌, refl, sym, ap, ◌∙◌, String, Bool, List, [], ◌∷◌, ◌++◌}
use kyc_agent_nordvik.Effects.{Call}
use kyc_agent_nordvik.Effects.Tracks.{IsPreorder, CallTracks}
use kyc_agent_nordvik.Audit.Sink.{AuditEvent, gate, automatic, review, closing}
use kyc_agent_nordvik.Llm.Base.{PipelineServices}
use kyc_agent_nordvik.Schemas.Documents.{InputDocument, DocumentType}
use kyc_agent_nordvik.Schemas.Case.{CustomerType, ApplicantDeclared}
use kyc_agent_nordvik.Schemas.Decisions.{Decision, ExtractionResult, RuleFlag, HumanDecision}
use kyc_agent_nordvik.Graph.State.{KycState, is_degraded}
use kyc_agent_nordvik.Graph.Context.{PipelineContext}

-- `log` says what the trail holds in each state of the outside world.
module _ {W : Type 0} (log : W → List AuditEvent) where
  -- The trail is only appended to.
  abbrev pub Grows : W → W → Type 0
  Grows w w' = (more : List AuditEvent) × (log w' ≡ log w ++ more)

  pub Grows-IsPreorder : IsPreorder Grows
  Grows-IsPreorder = record {
    stays = λ w. ([], sym (append-nil (log w)));
    joins = λ {u} (a, e) (b, f). (a ++ b, f ∙ ap (λ l. l ++ b) e ∙ append_assoc (log u) a b);
  }

  -- The event is in the trail, with the time of some moment.
  abbrev pub Logged : (ℕ → AuditEvent) → W → Type 0
  Logged e w =
      (ts : ℕ) × (before : List AuditEvent) × (after : List AuditEvent) × (log w
        ≡ before ++ e ts ∷ after)

  pub Logged-Grows : (e : ℕ → AuditEvent) (w w' : W) → Logged e w → Grows w w' → Logged e w'
  Logged-Grows e w w' (ts, before, after, h) (more, k) = (
    ts,
    before,
    after ++ more,
    k ∙ ap (λ l. l ++ more) h ∙ append_assoc before (e ts ∷ after) more,
  )

  -- The services change nothing in the trail but for what others append meanwhile.
  pub record ServicesGrow (services : PipelineServices W) : Type 0 where
    pub classify :
        (documents : List InputDocument) (customer : CustomerType)
        → CallTracks Grows (services.classify documents customer)
    pub extract :
        (document : InputDocument) (t : DocumentType)
        → CallTracks Grows (services.extract document t)
    pub verify_grounding :
        (document : InputDocument) (e : ExtractionResult)
        → CallTracks Grows (services.verify_grounding document e)
    pub narrate :
        (applicant : ApplicantDeclared) (triggered flags : List RuleFlag)
        → CallTracks Grows (services.narrate applicant triggered flags)

  -- Nothing that the context gives the nodes takes an event out of the trail.
  pub record Keeps (ctx : PipelineContext W) : Type 0 where
    pub services : ServicesGrow ctx.services
    pub fallback : ServicesGrow ctx.fallback
    pub sanctions : (name : String) → CallTracks Grows (ctx.sanctions.search name)
    pub pep : (name : String) → CallTracks Grows (ctx.pep.search name)
    pub emit : (e : AuditEvent) → CallTracks Grows (ctx.audit.emit e)

  -- And a write to its sink appends the event.
  pub record Records (ctx : PipelineContext W) : Type 0 where
    pub keeps : Keeps ctx
    pub appends : (e : AuditEvent) (w : W) → log (ctx.audit.emit e w).1 ≡ log w ++ e ∷ []

-- What the nodes write of a decision.
abbrev pub gate_event : KycState → Decision → ℕ → AuditEvent
gate_event s d ts = record {
  case_id = s.case_id;
  ts = ts;
  node = "decision_gate";
  event_type = "node_completed";
  payload = gate d.outcome d.reason_codes;
}

abbrev pub automatic_event : KycState → Decision → ℕ → AuditEvent
automatic_event s d ts = record {
  case_id = s.case_id;
  ts = ts;
  node = "auto_decision";
  event_type = "decision_made";
  payload = automatic d.outcome d.decided_by d.reason_codes d.rationale;
}

abbrev pub review_event : KycState → HumanDecision → Decision → ℕ → AuditEvent
review_event s h d ts = record {
  case_id = s.case_id;
  ts = ts;
  node = "human_review";
  event_type = "human_decision";
  payload = review d.outcome h.reviewer h.comment d.reason_codes;
}

abbrev pub closing_of : String → Decision → Bool → ℕ → AuditEvent
closing_of case_id d degraded ts = record {
  case_id = case_id;
  ts = ts;
  node = "finalize";
  event_type = "case_completed";
  payload = closing d.outcome d.decided_by d.reason_codes d.reviewer degraded;
}

abbrev pub closing_event : KycState → Decision → ℕ → AuditEvent
closing_event s d = closing_of s.case_id d (is_degraded s)
