-- ===== src/Api/Events.antt =====
-- The audit routes of api/main.py: the list of a case's events, and the stream that polls them.
use mathlib.Core.List.{append-nil, append_assoc}
use kyc_agent_nordvik.Prelude.{
  ℕ, ◌≡◌, refl, sym, ap, ◌∙◌, String, Bool, true, false, ◌&&◌, Option, none, some, List, [], ◌∷◌,
  ◌++◌, length, drop, leb, if◌then◌else◌,
}
use kyc_agent_nordvik.Audit.Sink.{AuditEvent}
use kyc_agent_nordvik.Graph.Builder.{Config}
use kyc_agent_nordvik.Api.Service.{Reply, body, not_found, not_awaiting, internal, Tasks, exists}

-- One turn of the loop: the events at its start, what `is_finished` answers, the events that are
-- counted behind it, and whether the client has gone.
pub record Poll : Type 0 where
  pub events : List AuditEvent
  pub finished : Reply Bool
  pub events_again : List AuditEvent
  pub disconnected : Bool

-- `none` is an exception of `is_finished`, which ends the stream too.
abbrev finished_of : Reply Bool → Option Bool
finished_of (body b) = some b
finished_of not_found = none
finished_of not_awaiting = none
finished_of (internal e) = none

abbrev same_length : List AuditEvent → List AuditEvent → Bool
same_length a b = leb (length a) (length b) && leb (length b) (length a)

-- Whether the loop is left at the end of a turn.
abbrev pub stops : Poll → Bool
stops p = elim (finished_of p.finished) [
  | none ↦ true
  | some finished ↦ if finished && same_length p.events p.events_again then true else p.disconnected
]

-- The events that the stream yields over these turns, with `sent` of them sent before.
unfoldable pub stream : (sent : ℕ) → List Poll → List AuditEvent
stream sent [] = []
stream sent (p ∷ polls) =
    let rest = stream (length p.events) polls in
    drop sent p.events ++ (if stops p then [] else rest)

module _ {W : Type 0} where
  unfoldable pub case_audit :
      Tasks → String → Option (Config W) → List AuditEvent → Reply (List AuditEvent)
  case_audit tasks case_id checkpoint events =
      if exists tasks case_id checkpoint then body events else not_found

  -- The route answers with the stream, which then runs over these turns.
  unfoldable pub case_events :
      Tasks → String → Option (Config W) → List Poll → Reply (List AuditEvent)
  unfolding stream
  case_events tasks case_id checkpoint polls =
      if exists tasks case_id checkpoint then body (stream 0 polls) else not_found

-- The log is only ever appended to.
abbrev pub Grows : List AuditEvent → List Poll → Type 0
Grows log [] = Unit
Grows log (p ∷ polls) = ((more : List AuditEvent) × (p.events ≡ log ++ more)) × Grows p.events polls

-- The log as the stream saw it last.
abbrev pub last_seen : List AuditEvent → List Poll → List AuditEvent
last_seen log [] = log
last_seen log (p ∷ polls) =
    let rest = last_seen p.events polls in if stops p then p.events else rest

drop-length : (log more : List AuditEvent) → drop (length log) (log ++ more) ≡ more
drop-length [] more = refl
drop-length (e ∷ log) more = drop-length log more

after_turn :
    (log events more rest : List AuditEvent)
    → events ≡ log ++ more
    → log ++ (drop (length log) events ++ rest) ≡ events ++ rest
after_turn log events more rest e =
    ap (λ l. log ++ (drop (length log) l ++ rest)) e
    ∙ ap (λ l. log ++ (l ++ rest)) (drop-length log more)
    ∙ sym (append_assoc log more rest)
    ∙ ap (λ l. l ++ rest) (sym e)

if_last :
    (b : Bool) (events rest seen : List AuditEvent)
    → events ++ rest ≡ seen
    → events ++ (if b then [] else rest) ≡ (if b then events else seen)
if_last true events rest seen e = append-nil events
if_last false events rest seen e = e

-- If the log is only appended to, the events that are sent before and those that the stream yields
-- are together the log as the stream saw it last: each event is sent once, in the log's order.
pub stream-last_seen :
    (polls : List Poll) (log : List AuditEvent)
    → Grows log polls
    → log ++ stream (length log) polls ≡ last_seen log polls
unfolding stream
stream-last_seen [] log h = append-nil log
stream-last_seen (p ∷ polls) log ((more, e), h) =
    after_turn log p.events more (if stops p then [] else stream (length p.events) polls) e
    ∙ if_last (stops p) p.events (stream (length p.events) polls) (last_seen p.events polls)
        (stream-last_seen polls p.events h)
