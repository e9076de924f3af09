-- ===== src/Graph/Builder/Limit.antt =====
-- The supersteps of a run of graph/builder.py, against the recursion limit that api/service.py gives
-- to LangGraph.
use kyc_agent_nordvik.Prelude.{ℕ, ◌+◌, ◌≤◌, sym, subst, inl, inr, String, List, [], ◌∷◌, arith}
use kyc_agent_nordvik.Effects.{Result, ok, crash}
use kyc_agent_nordvik.Effects.Ensures.{IfOk}
use kyc_agent_nordvik.Schemas.Case.{KycPackage}
use kyc_agent_nordvik.Graph.State.{KycState, Update}
use kyc_agent_nordvik.Graph.Context.{PipelineContext}
use kyc_agent_nordvik.Graph.Nodes.Base.{
  NodeName, intake, router, orchestrator, extract_document, validator, risk_scorer, decision_gate,
  auto_decision, human_review, finalize, handle_error, Command,
}
use kyc_agent_nordvik.Graph.Nodes.Decide.{Review, decided, interrupted}
use kyc_agent_nordvik.Graph.Builder.{
  Pc, at, fan, waiting, ended, crashed, Slot, Config, target, after_update, after_command,
  after_worker, run_node, run_worker, reviewed, resume, Step, node, worker, gather, resumed, Reach,
  here, next,
}
use kyc_agent_nordvik.Graph.Builder.Routes.{
  GoesTo, Dispatches, router-GoesTo, orchestrator-Dispatches, validator-GoesTo,
  decision_gate-GoesTo,
}
use kyc_agent_nordvik.Graph.Builder.Safety.{submitted}

-- The most supersteps that lead to a point of the graph.
abbrev rank : Pc → ℕ
rank (at intake) = 0
rank (at router) = 1
rank (at orchestrator) = 2
rank (at extract_document) = 0
rank (at validator) = 4
rank (at risk_scorer) = 5
rank (at decision_gate) = 6
rank (at auto_decision) = 7
rank (at human_review) = 7
rank (at finalize) = 8
rank (at handle_error) = 5
rank (fan slots) = 3
rank (waiting values) = 8
rank ended = 9
rank (crashed c) = 9

rank-le : (pc : Pc) → rank pc ≤ 9
rank-le (at intake) = omega arith
rank-le (at router) = omega arith
rank-le (at orchestrator) = omega arith
rank-le (at extract_document) = omega arith
rank-le (at validator) = omega arith
rank-le (at risk_scorer) = omega arith
rank-le (at decision_gate) = omega arith
rank-le (at auto_decision) = omega arith
rank-le (at human_review) = omega arith
rank-le (at finalize) = omega arith
rank-le (at handle_error) = omega arith
rank-le (fan slots) = omega arith
rank-le (waiting values) = omega arith
rank-le ended = omega arith
rank-le (crashed c) = omega arith

goes_to :
    (k : ℕ) (a b : NodeName) (c : Command)
    → k ≤ rank (at a)
    → k ≤ rank (at b)
    → GoesTo a b c
    → k ≤ rank (target c.goto)
goes_to k a b c h h' (inl e) = subst (λ g. k ≤ rank (target g)) (sym e) h
goes_to k a b c h h' (inr e) = subst (λ g. k ≤ rank (target g)) (sym e) h'

dispatches : (c : Command) → Dispatches c → 3 ≤ rank (target c.goto)
dispatches c (inl e) = subst (λ g. 3 ≤ rank (target g)) (sym e) (omega arith)
dispatches c (inr ([], e)) = subst (λ g. 3 ≤ rank (target g)) (sym e) (omega arith)
dispatches c (inr (task ∷ tasks, e)) = subst (λ g. 3 ≤ rank (target g)) (sym e) (omega arith)

module _ {W : Type 0} where
  after_update-rank :
      (k : ℕ) (s : KycState) (pc : Pc) (r : Result Update) (w : W)
      → k ≤ rank pc
      → k ≤ rank (after_update s pc r w).pc
  unfolding after_update
  after_update-rank k s pc (ok u) w h = h
  after_update-rank k s pc (crash c) w h = omega (arith, h, rank-le pc)

  after_command-rank :
      (k : ℕ) (P : Command → Type 0) (s : KycState) (r : Result Command) (w : W)
      → k ≤ 9
      → ((c : Command) → P c → k ≤ rank (target c.goto))
      → IfOk P r
      → k ≤ rank (after_command s r w).pc
  unfolding after_command
  after_command-rank k P s (ok c) w h f p = f c p
  after_command-rank k P s (crash c) w h f p = h

  after_worker-rank :
      (s : KycState) (before after : List Slot) (r : Result Update) (w : W)
      → 3 ≤ rank (after_worker s before after r w).pc
  unfolding after_worker
  after_worker-rank s before after (ok u) w = omega arith
  after_worker-rank s before after (crash c) w = omega arith

module _ {W : Type 0} (ctx : PipelineContext W) where
  run_node-rank :
      (n : NodeName) (s : KycState) (w : W) → 1 + rank (at n) ≤ rank (run_node ctx n s w).pc
  unfolding run_node
  run_node-rank intake s w = after_update-rank 1 s (at router) _ _ (omega arith)
  run_node-rank router s w =
      after_command-rank 2 (GoesTo handle_error orchestrator) s _ _ (omega arith)
        (λ c g. goes_to 2 handle_error orchestrator c (omega arith) (omega arith) g)
        ((router-GoesTo ctx s).at w)
  run_node-rank orchestrator s w =
      after_command-rank 3 Dispatches s _ _ (omega arith) dispatches
        ((orchestrator-Dispatches ctx s).at w)
  run_node-rank extract_document s w = omega arith
  run_node-rank validator s w =
      after_command-rank 5 (GoesTo handle_error risk_scorer) s _ _ (omega arith)
        (λ c g. goes_to 5 handle_error risk_scorer c (omega arith) (omega arith) g)
        ((validator-GoesTo ctx s).at w)
  run_node-rank risk_scorer s w = after_update-rank 6 s (at decision_gate) _ _ (omega arith)
  run_node-rank decision_gate s w =
      after_command-rank 7 (GoesTo human_review auto_decision) s _ _ (omega arith)
        (λ c g. goes_to 7 human_review auto_decision c (omega arith) (omega arith) g)
        ((decision_gate-GoesTo ctx s).at w)
  run_node-rank auto_decision s w = after_update-rank 8 s (at finalize) _ _ (omega arith)
  run_node-rank human_review s w = omega arith
  run_node-rank finalize s w = after_update-rank 9 s ended _ _ (omega arith)
  run_node-rank handle_error s w = after_update-rank 6 s (at decision_gate) _ _ (omega arith)

  reviewed-rank :
      (s : KycState) (w : W) (values : _) (r : Review) → 8 ≤ rank (reviewed ctx s w values r).pc
  unfolding reviewed
  reviewed-rank s w values (decided h) = after_update-rank 8 s (at finalize) _ _ (omega arith)
  reviewed-rank s w values (interrupted payload) = omega arith

  -- A node, or the end of a fan-out, is a superstep; a worker is a part of its fan-out's, and a
  -- resumed review is a run with a limit of its own.
  abbrev pub cost : {c d : Config W} → Step ctx c d → ℕ
  cost (node n p e) = 1
  cost (worker before task after p e) = 0
  cost (gather slots us p r e) = 1
  cost (resumed values value p e) = 0

  unfoldable pub supersteps : {c d : Config W} → Reach ctx c d → ℕ
  supersteps here = 0
  supersteps (next r st) = cost st + supersteps r

  Step-rank : {c d : Config W} (st : Step ctx c d) → cost st + rank c.pc ≤ rank d.pc
  unfolding run_worker resume
  Step-rank {c} {d} (node n p e) =
      subst (λ pc. 1 + rank pc ≤ rank d.pc) (sym p)
        (subst (λ d. 1 + rank (at n) ≤ rank d.pc) (sym e) (run_node-rank n c.state c.world))
  Step-rank {c} {d} (worker before task after p e) =
      subst (λ pc. 0 + rank pc ≤ rank d.pc) (sym p)
        (subst (λ d. 3 ≤ rank d.pc) (sym e) (after_worker-rank c.state before after _ _))
  Step-rank {c} {d} (gather slots us p r e) =
      subst (λ pc. 1 + rank pc ≤ rank d.pc) (sym p)
        (subst (λ d. 4 ≤ rank d.pc) (sym e) (omega arith))
  Step-rank {c} {d} (resumed values value p e) =
      subst (λ pc. 0 + rank pc ≤ rank d.pc) (sym p)
        (subst (λ d. 8 ≤ rank d.pc) (sym e) (reviewed-rank c.state c.world _ _))

  supersteps-rank : {c d : Config W} (r : Reach ctx c d) → supersteps r + rank c.pc ≤ rank d.pc
  unfolding supersteps
  supersteps-rank here = omega arith
  supersteps-rank (next r st) = omega (arith, supersteps-rank r, Step-rank st)

  -- No way of a submitted case through the graph has more than nine supersteps, whatever the
  -- services, the registries and the reviewers answer.
  pub submitted-supersteps :
      (case_id : String) (package' : KycPackage) (w : W) (c : Config W)
      (r : Reach ctx (submitted ctx case_id package' w) c)
      → supersteps r ≤ 9
  submitted-supersteps case_id package' w c r = omega (arith, supersteps-rank r, rank-le c.pc)
