-- ===== src/Graph/Trail/Appends.antt =====
-- The audit trail along the steps of graph/builder.py.
use kyc_agent_nordvik.Prelude.{sym, subst, List}
use kyc_agent_nordvik.Effects.{Result, ok, crash}
use kyc_agent_nordvik.Audit.Sink.{AuditEvent}
use kyc_agent_nordvik.Graph.State.{KycState, Update}
use kyc_agent_nordvik.Graph.Context.{PipelineContext}
use kyc_agent_nordvik.Graph.Nodes.Base.{
  NodeName, intake, router, orchestrator, extract_document, validator, risk_scorer, decision_gate,
  auto_decision, human_review, finalize, handle_error, Command,
}
use kyc_agent_nordvik.Graph.Nodes.Decide.{ResumeValue, Review, decided, interrupted}
use kyc_agent_nordvik.Graph.Builder.{
  Pc, Slot, Config, after_update, after_command, after_worker, run_node, run_worker, reviewed,
  resume, Step, node, worker, gather, resumed, Reach, here, next,
}
use kyc_agent_nordvik.Graph.Trail.{Grows, Grows-IsPreorder, Keeps}
use kyc_agent_nordvik.Graph.Trail.Grows.{
  intake-Grow, router-Grow, orchestrator-Grow, worker-Grow, decision_gate-Grow, auto_decision-Grow,
  human_review-Grow, finalize-Grow, handle_error-Grow,
}
use kyc_agent_nordvik.Graph.Trail.Assess.{validator-Grow, risk_scorer-Grow}

module _ {W : Type 0} (log : W → List AuditEvent) where
  after_update-Grow :
      (s : KycState) (pc : Pc) (r : Result Update) (u w : W)
      → Grows log u w
      → Grows log u (after_update s pc r w).world
  unfolding after_update
  after_update-Grow s pc (ok _) u w h = h
  after_update-Grow s pc (crash c) u w h = h

  after_command-Grow :
      (s : KycState) (r : Result Command) (u w : W)
      → Grows log u w
      → Grows log u (after_command s r w).world
  unfolding after_command
  after_command-Grow s (ok c) u w h = h
  after_command-Grow s (crash c) u w h = h

  after_worker-Grow :
      (s : KycState) (before after : List Slot) (r : Result Update) (u w : W)
      → Grows log u w
      → Grows log u (after_worker s before after r w).world
  unfolding after_worker
  after_worker-Grow s before after (ok _) u w h = h
  after_worker-Grow s before after (crash c) u w h = h

module _ {W : Type 0} (log : W → List AuditEvent) (ctx : PipelineContext W)
    (keeps : Keeps log ctx) where
  stay : (w : W) → Grows log w w
  stay w = (Grows-IsPreorder log).stays w

  run_node-Grow : (n : NodeName) (s : KycState) (w : W) → Grows log w (run_node ctx n s w).world
  unfolding run_node
  run_node-Grow intake s w = after_update-Grow log s _ _ w _ ((intake-Grow log ctx keeps s).at w)
  run_node-Grow router s w = after_command-Grow log s _ w _ ((router-Grow log ctx keeps s).at w)
  run_node-Grow orchestrator s w =
      after_command-Grow log s _ w _ ((orchestrator-Grow log ctx keeps s).at w)
  run_node-Grow extract_document s w = stay w
  run_node-Grow validator s w =
      after_command-Grow log s _ w _ ((validator-Grow log ctx keeps s).at w)
  run_node-Grow risk_scorer s w =
      after_update-Grow log s _ _ w _ ((risk_scorer-Grow log ctx keeps s).at w)
  run_node-Grow decision_gate s w =
      after_command-Grow log s _ w _ ((decision_gate-Grow log ctx keeps s).at w)
  run_node-Grow auto_decision s w =
      after_update-Grow log s _ _ w _ ((auto_decision-Grow log ctx keeps s).at w)
  run_node-Grow human_review s w = stay w
  run_node-Grow finalize s w =
      after_update-Grow log s _ _ w _ ((finalize-Grow log ctx keeps s).at w)
  run_node-Grow handle_error s w =
      after_update-Grow log s _ _ w _ ((handle_error-Grow log ctx keeps s).at w)

  reviewed-Grow :
      (s : KycState) (w : W) (values : List ResumeValue) (r : Review)
      → Grows log w (reviewed ctx s w values r).world
  unfolding reviewed
  reviewed-Grow s w values (decided h) =
      after_update-Grow log s _ _ w _ ((human_review-Grow log ctx keeps s h).at w)
  reviewed-Grow s w values (interrupted payload) = stay w

  Step-Grow : {c d : Config W} → Step ctx c d → Grows log c.world d.world
  unfolding run_worker resume
  Step-Grow {c} (node n p e) =
      subst (λ d. Grows log c.world d.world) (sym e) (run_node-Grow n c.state c.world)
  Step-Grow {c} (worker before task after p e) =
      subst (λ d. Grows log c.world d.world) (sym e)
        (after_worker-Grow log c.state before after _ c.world _
          ((worker-Grow log ctx keeps task).at c.world))
  Step-Grow {c} (gather slots us p r e) =
      subst (λ d. Grows log c.world d.world) (sym e) (stay c.world)
  Step-Grow {c} (resumed values value p e) =
      subst (λ d. Grows log c.world d.world) (sym e) (reviewed-Grow c.state c.world _ _)

  -- Whatever way a case takes through the graph from any point on, with services, registries and a
  -- sink that take no event out of the trail, the trail afterwards is the trail before with events
  -- appended: none is lost, changed or moved.
  pub Reach-Grow : {c d : Config W} → Reach ctx c d → Grows log c.world d.world
  Reach-Grow {c} here = stay c.world
  Reach-Grow (next r st) = (Grows-IsPreorder log).joins (Reach-Grow r) (Step-Grow st)
