-- ===== src/Graph/Builder/Lifecycle.antt =====
-- What the outside sees of a case of graph/builder.py: its status and its decision; and a
-- specification of how these two change, without the nodes, the services and the registries.
pub mod Writes
pub mod Moves
pub mod Nodes
pub mod Refines
use kyc_agent_nordvik.Prelude.{Bool, true, false, ◌≡◌, ◌≢◌, ◌⊎◌, Option, none, some, List, All}
use kyc_agent_nordvik.Schemas.Case.{
  CaseStatus, received, processing, awaiting_human_review, completed, failed,
}
use kyc_agent_nordvik.Schemas.Decisions.{Decision, HumanDecision, escalate, system, human}
use kyc_agent_nordvik.Graph.State.{KycState, Update}
use kyc_agent_nordvik.Graph.Nodes.Base.{
  intake, router, orchestrator, extract_document, validator, risk_scorer, decision_gate,
  auto_decision, human_review, finalize, handle_error,
}
use kyc_agent_nordvik.Graph.Nodes.Decide.{human_decision}
use kyc_agent_nordvik.Graph.Builder.{Pc, at, fan, waiting, ended, crashed, Slot, todo, ready}

pub record Shown : Type 0 where
  pub status : CaseStatus
  pub decision : Option Decision

abbrev pub show : CaseStatus → Option Decision → Shown
show st d = record { status = st; decision = d }

abbrev pub shown : KycState → Shown
shown s = show s.status s.decision

-- The life of a case: the system settles it, or refers it to a human, whose answer keeps the codes
-- of the referral; then it is closed.
pub data Move (v v' : Shown) : Type 0 where
  began : v ≡ show received none → v' ≡ show processing none → Move v v'
  settled :
      (d : Decision)
      → d.decided_by ≡ system
      → d.outcome ≢ escalate
      → v ≡ show processing none
      → v' ≡ show processing (some d)
      → Move v v'
  referred :
      (d : Decision)
      → d.decided_by ≡ system
      → d.outcome ≡ escalate
      → v ≡ show processing none
      → v' ≡ show awaiting_human_review (some d)
      → Move v v'
  answered :
      (d : Decision) (h : HumanDecision)
      → d.outcome ≡ escalate
      → v ≡ show awaiting_human_review (some d)
      → v' ≡ show awaiting_human_review (some (human_decision (some d) h))
      → Move v v'
  closed :
      (st : CaseStatus) (d : Decision)
      → d.outcome ≢ escalate
      → ((st ≡ processing) × (d.decided_by ≡ system))
        ⊎ ((st ≡ awaiting_human_review) × (d.decided_by ≡ human))
      → v ≡ show st (some d)
      → v' ≡ show completed (some d)
      → Move v v'

-- Nothing that shows has happened, or one move.
abbrev pub Moves : Shown → Shown → Type 0
Moves v v' = (v' ≡ v) ⊎ Move v v'

pub data Lives (v : Shown) : Shown → Type 0 where
  born : Lives v v
  moved : {v' v'' : Shown} → Lives v v' → Move v' v'' → Lives v v''

-- What an update writes of them.
abbrev pub Writes : Option CaseStatus → Option Decision → Update → Type 0
Writes st d u = (u.status ≡ st) × (u.decision ≡ d)

abbrev pub SlotWrites : Slot → Type 0
SlotWrites (todo task) = Unit
SlotWrites (ready u) = Writes none none u

abbrev pub Closable : CaseStatus → Decision → Type 0
Closable st d =
    (d.outcome ≢ escalate)
    × (((st ≡ processing) × (d.decided_by ≡ system))
        ⊎ ((st ≡ awaiting_human_review) × (d.decided_by ≡ human)))

abbrev pub IsOpen : Shown → Type 0
IsOpen v = v ≡ show processing none

abbrev pub AwaitsReview : Shown → Type 0
AwaitsReview v = (d : Decision) × (v ≡ show awaiting_human_review (some d)) × (d.outcome ≡ escalate)

-- `completed` or `failed`, as `CaseService.is_finished` of api/service.py asks.
abbrev pub is_final : CaseStatus → Bool
is_final received = false
is_final processing = false
is_final awaiting_human_review = false
is_final completed = true
is_final failed = true

-- What shows at each point of the graph.
abbrev pub ShowsAt : Shown → Pc → Type 0
ShowsAt v (at intake) = v ≡ show received none
ShowsAt v (at router) = IsOpen v
ShowsAt v (at orchestrator) = IsOpen v
ShowsAt v (at extract_document) = ⊥
ShowsAt v (at validator) = IsOpen v
ShowsAt v (at risk_scorer) = IsOpen v
ShowsAt v (at decision_gate) = IsOpen v
ShowsAt v (at handle_error) = IsOpen v
ShowsAt v (at auto_decision) =
    (d : Decision) × (v ≡ show processing (some d))
    × (d.outcome ≢ escalate)
    × (d.decided_by ≡ system)
ShowsAt v (at human_review) = AwaitsReview v
ShowsAt v (at finalize) =
    (st : CaseStatus) × (d : Decision) × (v ≡ show st (some d)) × Closable st d
ShowsAt v (fan slots) = IsOpen v × All SlotWrites slots
ShowsAt v (waiting values) = AwaitsReview v
ShowsAt v ended = (d : Decision) × (v ≡ show completed (some d)) × (d.outcome ≢ escalate)
ShowsAt v (crashed c) = is_final v.status ≡ false
