-- ===== src/Audit/Sink.antt =====
-- audit/sink.py: audit events and the sinks that keep them. A time is a number of microseconds. The
-- payload has a constructor for each place that emits, with the values that stand in its dict.
pub mod Log
use kyc_agent_nordvik.Prelude.{
  ℕ, String, Bool, ◌≡◌, refl, Option, List, [], ◌∷◌, ◌++◌, select, ◌==◌,
}
use kyc_agent_nordvik.Python.{Score}
use kyc_agent_nordvik.Effects.{Outcome, value, raised, Call}
use kyc_agent_nordvik.Schemas.Ids.{RuleId}
use kyc_agent_nordvik.Schemas.Case.{CustomerType}
use kyc_agent_nordvik.Schemas.Documents.{DocumentType, Fields, ClassifiedDocument}
use kyc_agent_nordvik.Schemas.Decisions.{
  Severity, RuleFlag, FieldCheck, Registry, RegistryHit, RiskLevel, DecisionOutcome, DecidedBy,
  ProcessingError,
}

pub data Payload : Type 0 where
  received : CustomerType → (applicant : String) → (documents : List String) → Payload
  errors : List ProcessingError → Payload
  classifications : List ClassifiedDocument → Payload
  rule : RuleId → (details : String) → Payload
  incomplete : RuleId → (details : String) → (degraded : Bool) → Payload
  dispatched : List String → Payload
  extraction :
      DocumentType → Fields → List (String × Score) → (extraction_error : Option String) → Payload
  recovered : List ProcessingError → Payload
  flag : RuleId → Severity → (details : String) → Payload
  validation : Score → List FieldCheck → List RuleFlag → Payload
  registry_error : Registry → (details : String) → Payload
  registry_answer : Registry → (query : String) → List RegistryHit → Payload
  risk : RiskLevel → (triggered : List RuleId) → (sanctions pep ubo : ℕ) → Payload
  gate : DecisionOutcome → List RuleId → Payload
  automatic : DecisionOutcome → DecidedBy → List RuleId → (rationale : String) → Payload
  review : DecisionOutcome → (reviewer comment : String) → List RuleId → Payload
  closing :
      DecisionOutcome
      → DecidedBy
      → List RuleId
      → (reviewer : Option String) → (degraded : Bool) → Payload
  degradation : List String → List ProcessingError → Payload

pub record AuditEvent : Type 0 where
  pub case_id : String
  pub ts : ℕ
  pub node : String
  pub event_type : String
  pub payload : Payload

-- The protocol: what a sink answers to `emit` and to `events`.
pub record AuditSink (W : Type 0) : Type 0 where
  pub emit : AuditEvent → Call W (Unit {0})
  pub events : String → Call W (List AuditEvent)

-- InMemoryAuditSink, over its list `_events`.
unfoldable pub in_memory : AuditSink (List AuditEvent)
in_memory = record {
  emit = λ event events. (value tt, events ++ event ∷ []);
  events = λ case_id events. (value (select (λ e. e.case_id == case_id) events), events);
}

swallow : Outcome (Unit {0}) → Outcome (Unit {0})
swallow (value u) = value u
swallow (raised exc) = value tt

swallow-eq : (o : Outcome (Unit {0})) → swallow o ≡ value tt
unfolding swallow
swallow-eq (value u) = refl
swallow-eq (raised exc) = refl

module _ {W : Type 0} where
  -- SafeAuditSink: a failed write is logged, never raised.
  unfoldable pub safe : AuditSink W → AuditSink W
  unfolding swallow
  safe inner = record {
    emit = λ event w. let (answer, w') = inner.emit event w in (swallow answer, w');
    events = inner.events;
  }

  -- A write never raises.
  abbrev pub IsQuiet : AuditSink W → Type 0
  IsQuiet sink = (event : AuditEvent) (w : W) → (sink.emit event w).0 ≡ value tt

  -- A write to the safe sink never raises, whatever the sink that it wraps does.
  pub safe-IsQuiet : (inner : AuditSink W) → IsQuiet (safe inner)
  unfolding safe
  safe-IsQuiet inner event w = swallow-eq (inner.emit event w).0
