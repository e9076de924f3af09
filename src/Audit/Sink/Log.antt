-- ===== src/Audit/Sink/Log.antt =====
-- The log that the in-memory sink of audit/sink.py keeps behind the safe one.
use mathlib.Core.List.{append-nil}
use kyc_agent_nordvik.Prelude.{
  ◌≡◌, refl, sym, ap, ◌∙◌, String, Bool, List, [], ◌∷◌, ◌++◌, select, ◌==◌, arith,
}
use kyc_agent_nordvik.Effects.{value}
use kyc_agent_nordvik.Audit.Sink.{AuditEvent, in_memory, safe}

-- The log after these events were emitted one after the other.
unfoldable pub emit_all : List AuditEvent → List AuditEvent → List AuditEvent
unfolding in_memory safe
emit_all [] log = log
emit_all (e ∷ events) log = emit_all events ((safe in_memory).emit e log).1

append_assoc_one :
    (log events : List AuditEvent) (e : AuditEvent) → (log ++ e ∷ []) ++ events ≡ log ++ e ∷ events
append_assoc_one [] events e = refl
append_assoc_one (l ∷ log) events e = ap (λ rest. l ∷ rest) (append_assoc_one log events e)

emit_all-append : (events log : List AuditEvent) → emit_all events log ≡ log ++ events
unfolding emit_all in_memory safe
emit_all-append [] log = sym (append-nil log)
emit_all-append (e ∷ events) log =
    emit_all-append events (log ++ e ∷ []) ∙ append_assoc_one log events e

select-append :
    (p : AuditEvent → Bool) (xs ys : List AuditEvent)
    → select p (xs ++ ys) ≡ select p xs ++ select p ys
select-append p [] ys = refl
select-append p (x ∷ xs) ys = ground (arith, select-append p xs ys)

-- After any events were emitted through the safe in-memory sink, it answers for a case with what it
-- held of this case before, followed by the case's new events in the order in which they came.
pub emit_all-events :
    (events log : List AuditEvent) (case_id : String)
    → ((safe in_memory).events case_id (emit_all events log)).0
      ≡ value (select (λ e. e.case_id == case_id) log ++ select (λ e. e.case_id == case_id) events)
unfolding in_memory safe
emit_all-events events log case_id =
    ap (λ all. value (select (λ e. e.case_id == case_id) all)) (emit_all-append events log)
    ∙ ap value (select-append (λ e. e.case_id == case_id) log events)
