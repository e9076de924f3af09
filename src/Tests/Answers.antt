-- ===== src/Tests/Answers.antt =====
-- Witnesses for the life of a case and the answers of the API.
use kyc_agent_nordvik.Prelude.{
  ◌≡◌, ◌≢◌, refl, ◌↔◌, Bool, true, false, none, some, List, [], ◌∷◌, ◌++◌, select, ◌==◌,
}
use kyc_agent_nordvik.Effects.{key_error, value}
use kyc_agent_nordvik.Audit.Sink.{AuditEvent, gate, in_memory, safe}
use kyc_agent_nordvik.Audit.Sink.Log.{emit_all, emit_all-events}
use kyc_agent_nordvik.Schemas.Case.{received}
use kyc_agent_nordvik.Schemas.Decisions.{
  Decision, escalate, approve, HumanDecision, approved, rejected,
}
use kyc_agent_nordvik.Graph.Builder.{Config, ended, crashed, Reach}
use kyc_agent_nordvik.Graph.Builder.Safety.{submitted}
use kyc_agent_nordvik.Graph.Builder.Sound.NoCrash.{Rests, submitted-no_crash, submitted-Rests}
use kyc_agent_nordvik.Graph.Builder.Lifecycle.{show, shown, Lives, ShowsAt}
use kyc_agent_nordvik.Graph.Builder.Lifecycle.Refines.{submitted-Lives, submitted-ShowsAt}
use kyc_agent_nordvik.Api.Service.{body, not_found, not_awaiting, review, is_finished}
use kyc_agent_nordvik.Api.Service.Reviewed.{
  IsAnswered, IsReviewersDecision, review-closes, review_twice, is_finished_iff,
}
use kyc_agent_nordvik.Api.Events.{Poll, stream, case_events, last_seen, stream-last_seen}
use kyc_agent_nordvik.Samples.{context, outage, package_of, anna}
use kyc_agent_nordvik.Tests.Runs.{
  approved as approved_case, approved_run, reviewed_case, reviewed_run,
}
use kyc_agent_nordvik.Tests.Incomplete.{offline, offline-Honours, asked, asked_run, asked-waiting}

submitted-no_crash_example : asked.pc ≢ crashed key_error
submitted-no_crash_example =
    submitted-no_crash offline "case-2" (package_of anna) tt asked key_error offline-Honours
      asked_run

submitted-Rests_example :
    (c : Config (Unit {0})) × Reach offline (submitted offline "case-2" (package_of anna) tt) c
    × Rests offline c.pc
submitted-Rests_example = submitted-Rests offline "case-2" (package_of anna) tt offline-Honours

submitted-Lives_example : Lives (show received none) (shown reviewed_case.state)
submitted-Lives_example =
    submitted-Lives outage "case-1" (package_of anna) tt reviewed_case reviewed_run

submitted-ShowsAt_example : ShowsAt (shown approved_case.state) approved_case.pc
submitted-ShowsAt_example =
    submitted-ShowsAt context "case-1" (package_of anna) tt approved_case approved_run

abbrev eva : HumanDecision
eva = record { outcome = rejected; reviewer = "Eva"; comment = "no documents" }

abbrev ola : HumanDecision
ola = record { outcome = approved; reviewer = "Ola"; comment = "" }

review-closes_example :
    (d : Decision) × (asked.state.decision ≡ some d)
    × (d.outcome ≡ escalate)
    × ((d' : Decision) × IsReviewersDecision offline d eva d'
        × IsAnswered offline "case-2" d' (review offline ("case-2" ∷ []) "case-2" (some asked) eva))
review-closes_example =
    review-closes offline "case-2" (package_of anna) tt asked ("case-2" ∷ []) eva (λ event w. refl)
      asked_run asked-waiting

review_twice_example :
    (closed : Config (Unit {0})) × ((review offline [] "case-2" (some asked) eva).1 ≡ some closed)
    × (closed.pc ≡ ended)
    × (review offline [] "case-2" (some closed) ola ≡ (not_awaiting, some closed))
review_twice_example =
    review_twice offline [] "case-2" asked eva ola (λ event w. refl) asked-waiting

is_finished_iff_example :
    (is_finished context [] "case-1" (some approved_case) ≡ body true) ↔ (approved_case.pc ≡ ended)
is_finished_iff_example =
    is_finished_iff context "case-1" (package_of anna) tt approved_case [] approved_run

abbrev event_of : Bool → AuditEvent
event_of b = record {
  case_id = "case-1";
  ts = 7;
  node = "decision_gate";
  event_type = "node_completed";
  payload = gate approve [];
}

abbrev polls : List Poll
polls =
    record {
      events = event_of true ∷ [];
      finished = body false;
      events_again = event_of true ∷ [];
      disconnected = false;
    }
    ∷ record {
      events = event_of true ∷ event_of false ∷ [];
      finished = body true;
      events_again = event_of true ∷ event_of false ∷ [];
      disconnected = false;
    }
    ∷ []

stream-last_seen_example : [] ++ stream 0 polls ≡ last_seen [] polls
stream-last_seen_example =
    stream-last_seen polls [] ((event_of true ∷ [], refl), ((event_of false ∷ [], refl), tt))

-- The route of a case that has a task, and of one that nobody submitted.
case_events_replies :
    (case_events {W = Unit {0}} ("case-1" ∷ []) "case-1" none polls
      ≡ body (event_of true ∷ event_of false ∷ []))
    × (case_events {W = Unit {0}} ("case-1" ∷ []) "case-2" none polls ≡ not_found)
unfolding case_events
case_events_replies = (refl, refl)

emit_all-events_example :
    ((safe in_memory).events "case-1" (emit_all (event_of true ∷ event_of false ∷ []) [])).0
    ≡ value (
        select (λ e. e.case_id == "case-1") []
        ++ select (λ e. e.case_id == "case-1") (event_of true ∷ event_of false ∷ []))
emit_all-events_example = emit_all-events (event_of true ∷ event_of false ∷ []) [] "case-1"
