-- ===== src/Graph/Builder.antt =====
-- graph/builder.py: the edges of the graph, and how a case moves along them. LangGraph runs a
-- node, merges its update into the state by the reducers, and goes on to the node that the edge
-- or the returned Command names. The workers of one fan-out run in any order; their updates are
-- merged when all are done, in the order of the Sends. A worker is one step here: how the calls
-- of two workers interleave is left to `W`, whose answers are arbitrary anyway.
pub mod Slots
pub mod Invariant
pub mod Steps
pub mod Closing
pub mod Safety
pub mod Approval
pub mod Routes
pub mod Progress
pub mod Sound
pub mod Lifecycle
pub mod Limit
use kyc_agent_nordvik.Prelude.{ℕ, zero, suc, ◌≡◌, Option, none, some, List, [], ◌∷◌, ◌++◌, map}
use kyc_agent_nordvik.Effects.{Result, ok, crash, Crash, key_error}
use kyc_agent_nordvik.Graph.State.{KycState, ExtractTask, Update, apply_update}
use kyc_agent_nordvik.Graph.Context.{PipelineContext}
use kyc_agent_nordvik.Graph.Nodes.Base.{
  NodeName, intake, router, orchestrator, extract_document, validator, risk_scorer, decision_gate,
  auto_decision, human_review, finalize, handle_error, Goto, to, sends, Command,
}
use kyc_agent_nordvik.Graph.Nodes.Intake.{run_intake, run_router, run_orchestrator}
use kyc_agent_nordvik.Graph.Nodes.Extract.{run_extract_document}
use kyc_agent_nordvik.Graph.Nodes.Validate.{run_validator}
use kyc_agent_nordvik.Graph.Nodes.Score.{run_risk_scorer}
use kyc_agent_nordvik.Graph.Nodes.Decide.{
  ResumeValue, Review, decided, interrupted, review_loop, run_decision_gate, run_auto_decision,
  run_human_review, run_finalize, run_handle_error,
}

-- A worker that has not run yet, or its update.
pub data Slot : Type 0 where
  todo : ExtractTask → Slot
  ready : Update → Slot

-- Where a case stands. `waiting` holds the values that it has been resumed with so far.
pub data Pc : Type 0 where
  at : NodeName → Pc
  fan : List Slot → Pc
  waiting : List ResumeValue → Pc
  ended : Pc
  crashed : Crash → Pc

pub record Config (W : Type 0) : Type 0 where
  pub state : KycState
  pub world : W
  pub pc : Pc

-- What follows a Command. With no Send at all the run has nothing left to do.
abbrev pub target : Goto → Pc
target (to node) = at node
target (sends []) = ended
target (sends (task ∷ tasks)) = fan (todo task ∷ map todo tasks)

abbrev pub cons_update : Update → Option (List Update) → Option (List Update)
cons_update u none = none
cons_update u (some us) = some (u ∷ us)

-- The updates, if every worker is done.
unfoldable pub all_ready : List Slot → Option (List Update)
all_ready [] = some []
all_ready (todo task ∷ slots) = none
all_ready (ready u ∷ slots) = cons_update u (all_ready slots)

unfoldable pub apply_all : KycState → List Update → KycState
apply_all s [] = s
apply_all s (u ∷ us) = apply_all (apply_update s u) us

module _ {W : Type 0} where
  unfoldable pub after_update : KycState → Pc → Result Update → W → Config W
  after_update s next (ok u) w = record { state = apply_update s u; world = w; pc = next }
  after_update s next (crash c) w = record { state = s; world = w; pc = crashed c }

  unfoldable pub after_command : KycState → Result Command → W → Config W
  after_command s (ok c) w = record {
    state = apply_update s c.update;
    world = w;
    pc = target c.goto;
  }
  after_command s (crash c) w = record { state = s; world = w; pc = crashed c }

  unfoldable pub after_worker : KycState → List Slot → List Slot → Result Update → W → Config W
  after_worker s before after (ok u) w = record {
    state = s;
    world = w;
    pc = fan (before ++ ready u ∷ after);
  }
  after_worker s before after (crash c) w = record { state = s; world = w; pc = crashed c }

module _ {W : Type 0} (ctx : PipelineContext W) where
  -- One superstep at a node. Only a Send reaches `extract_document`: run on the state, it would
  -- not find its `document`.
  unfoldable pub run_node : NodeName → KycState → W → Config W
  unfolding after_update after_command
  run_node intake s w = let (r, w') = run_intake ctx s w in after_update s (at router) r w'
  run_node router s w = let (r, w') = run_router ctx s w in after_command s r w'
  run_node orchestrator s w = let (r, w') = run_orchestrator ctx s w in after_command s r w'
  run_node extract_document s w = record { state = s; world = w; pc = crashed key_error }
  run_node validator s w = let (r, w') = run_validator ctx s w in after_command s r w'
  run_node risk_scorer s w =
      let (r, w') = run_risk_scorer ctx s w in after_update s (at decision_gate) r w'
  run_node decision_gate s w = let (r, w') = run_decision_gate ctx s w in after_command s r w'
  run_node auto_decision s w =
      let (r, w') = run_auto_decision ctx s w in after_update s (at finalize) r w'
  run_node human_review s w = record { state = s; world = w; pc = waiting [] }
  run_node finalize s w = let (r, w') = run_finalize ctx s w in after_update s ended r w'
  run_node handle_error s w =
      let (r, w') = run_handle_error ctx s w in after_update s (at decision_gate) r w'

  unfoldable pub run_worker : KycState → W → List Slot → ExtractTask → List Slot → Config W
  unfolding after_worker
  run_worker s w before task after =
      let (r, w') = run_extract_document ctx task w in after_worker s before after r w'

  unfoldable pub reviewed : KycState → W → List ResumeValue → Review → Config W
  unfolding after_update
  reviewed s w values (decided h) =
      let (r, w') = run_human_review ctx s h w in after_update s (at finalize) r w'
  reviewed s w values (interrupted payload) = record { state = s; world = w; pc = waiting values }

  -- Command(resume=value): the node starts again and takes all values so far in turn.
  unfoldable pub resume : KycState → W → List ResumeValue → ResumeValue → Config W
  unfolding reviewed
  resume s w values value =
      reviewed s w (values ++ value ∷ [])
        (review_loop ctx.python.int_str s none (values ++ value ∷ []))

  -- One step from `c` to `c'`.
  pub data Step (c c' : Config W) : Type 0 where
    node : (n : NodeName) → c.pc ≡ at n → c' ≡ run_node n c.state c.world → Step c c'
    worker :
        (before : List Slot) (task : ExtractTask) (after : List Slot)
        → c.pc ≡ fan (before ++ todo task ∷ after)
        → c' ≡ run_worker c.state c.world before task after
        → Step c c'
    gather :
        (slots : List Slot) (updates : List Update)
        → c.pc ≡ fan slots
        → all_ready slots ≡ some updates
        → c' ≡ record { state = apply_all c.state updates; world = c.world; pc = at validator }
        → Step c c'
    resumed :
        (values : List ResumeValue) (value : ResumeValue)
        → c.pc ≡ waiting values
        → c' ≡ resume c.state c.world values value
        → Step c c'

  pub data Reach (c : Config W) : Config W → Type 0 where
    here : Reach c c
    next : {d e : Config W} → Reach c d → Step d e → Reach c e
