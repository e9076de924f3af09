-- ===== src/Graph/Builder/Safety.antt =====
-- The invariant of a case along the steps of graph/builder.py.
use kyc_agent_nordvik.Prelude.{refl, sym, subst, inl, inr, List, [], ◌∷◌, ◌++◌, All, String}
use kyc_agent_nordvik.Effects.{Result, ok, crash}
use kyc_agent_nordvik.Effects.Ensures.{IfOk}
use kyc_agent_nordvik.Schemas.Case.{KycPackage}
use kyc_agent_nordvik.Graph.State.{KycState, Update, apply_update, ExtractTask, initial_state}
use kyc_agent_nordvik.Graph.Context.{PipelineContext}
use kyc_agent_nordvik.Graph.Nodes.Base.{
  NodeName, intake, router, orchestrator, extract_document, validator, risk_scorer, decision_gate,
  auto_decision, human_review, finalize, handle_error,
}
use kyc_agent_nordvik.Graph.Nodes.Decide.{Review, decided, interrupted, ResumeValue}
use kyc_agent_nordvik.Graph.Builder.{
  at, fan, ended, Slot, todo, ready, Config, run_node, run_worker, resume, reviewed, apply_all,
  Step, node, worker, gather, resumed, Reach, here, next, after_worker,
}
use kyc_agent_nordvik.Graph.Builder.Slots.{All-swap, IfReady, all_ready-IfReady}
use kyc_agent_nordvik.Graph.Builder.Invariant.{
  Undecided, PcInv, Inv, IsComplete, Escalated, SlotInv, Settled-Decided, after_update-Inv,
  after_command-Inv,
}
use kyc_agent_nordvik.Graph.Builder.Steps.{
  intake-Inv, router-Inv, orchestrator-Inv, worker-Inv, validator-Inv, risk_scorer-Inv,
  degrade_append,
}
use kyc_agent_nordvik.Graph.Builder.Closing.{
  decision_gate-Inv, auto_decision-Inv, human_review-Inv, finalize-Inv, handle_error-Inv,
}

module _ {W : Type 0} (ctx : PipelineContext W) where
  run_node-Inv :
      (n : NodeName) (s : KycState) (w : W) → PcInv ctx s (at n) → Inv ctx (run_node ctx n s w)
  unfolding run_node
  run_node-Inv intake s w h =
      after_update-Inv ctx s (at router) _ _ (inl h.0) ((intake-Inv ctx s h).at w)
  run_node-Inv router s w h = after_command-Inv ctx s _ _ (inl h.0) ((router-Inv ctx s h).at w)
  run_node-Inv orchestrator s w h =
      after_command-Inv ctx s _ _ (inl h.0) ((orchestrator-Inv ctx s h).at w)
  run_node-Inv extract_document s w h = absurd h
  run_node-Inv validator s w h =
      after_command-Inv ctx s _ _ (inl h.0.0) ((validator-Inv ctx s h).at w)
  run_node-Inv risk_scorer s w h =
      after_update-Inv ctx s (at decision_gate) _ _ (inl h.0.0) ((risk_scorer-Inv ctx s h).at w)
  run_node-Inv decision_gate s w h =
      after_command-Inv ctx s _ _ (inl h.0) ((decision_gate-Inv ctx s h).at w)
  run_node-Inv auto_decision s w h =
      after_update-Inv ctx s (at finalize) _ _ (inr (h.0, inl h.1))
        ((auto_decision-Inv ctx s h).at w)
  run_node-Inv human_review s w h = h
  run_node-Inv finalize s w h =
      after_update-Inv ctx s ended _ _ (inr (Settled-Decided ctx s h)) ((finalize-Inv ctx s h).at w)
  run_node-Inv handle_error s w h =
      after_update-Inv ctx s (at decision_gate) _ _ (inl h.0.0) ((handle_error-Inv ctx s h).at w)

  after_worker-Inv :
      (s : KycState) (before after : List Slot) (task : ExtractTask) (r : Result Update) (w : W)
      → PcInv ctx s (fan (before ++ todo task ∷ after))
      → IfOk (λ u. SlotInv (ready u)) r
      → Inv ctx (after_worker s before after r w)
  unfolding after_worker
  after_worker-Inv s before after task (ok u) w h k =
      (h.0, h.1, All-swap SlotInv before after (todo task) (ready u) k h.2)
  after_worker-Inv s before after task (crash c) w h k = inl h.0.0

  abbrev Collected : KycState → Type 0
  Collected s = Undecided ctx s × IsComplete s.kyc_package s.classified_documents

  collect-Inv :
      (u : Update) (s : KycState) → SlotInv (ready u) → Collected s → Collected (apply_update s u)
  unfolding apply_update
  collect-Inv u s k h = (
    (
      rw k.0 h.0.0,
      rw k.1 h.0.1,
      degrade_append s.extractions u.extractions s.degraded_reasons u.degraded_reasons h.0.2 k.4,
    ),
    rw k.3 h.1,
  )

  apply_all-Inv :
      (us : List Update) (s : KycState)
      → All (λ u. SlotInv (ready u)) us
      → Collected s
      → Collected (apply_all s us)
  unfolding apply_all
  apply_all-Inv [] s k h = h
  apply_all-Inv (u ∷ us) s k h = apply_all-Inv us (apply_update s u) k.1 (collect-Inv u s k.0 h)

  reviewed-Inv :
      (s : KycState) (w : W) (values : List ResumeValue) (r : Review)
      → Escalated ctx s
      → Inv ctx (reviewed ctx s w values r)
  unfolding reviewed
  reviewed-Inv s w values (decided d) h =
      after_update-Inv ctx s (at finalize) _ _ (inr (h.0, inl h.1))
        ((human_review-Inv ctx s d h.0).at w)
  reviewed-Inv s w values (interrupted payload) h = h

  pub Step-Inv : {c d : Config W} → Step ctx c d → Inv ctx c → Inv ctx d
  unfolding run_worker resume
  Step-Inv {c} {d} (node n p e) h =
      subst (Inv ctx) (sym e) (run_node-Inv n c.state c.world (subst (PcInv ctx c.state) p h))
  Step-Inv {c} {d} (worker before task after p e) h = subst (Inv ctx) (sym e) (
      after_worker-Inv c.state before after task _ _ (subst (PcInv ctx c.state) p h)
        ((worker-Inv ctx c.state task).at c.world))
  Step-Inv {c} {d} (gather slots us p r e) h =
      let k = subst (PcInv ctx c.state) p h in
      subst (Inv ctx) (sym e) (
        apply_all-Inv us c.state (subst (IfReady SlotInv) r (all_ready-IfReady SlotInv slots k.2))
          (k.0, k.1))
  Step-Inv {c} {d} (resumed values value p e) h =
      subst (Inv ctx) (sym e)
        (reviewed-Inv c.state c.world (values ++ value ∷ []) _ (subst (PcInv ctx c.state) p h))

  pub Reach-Inv : {c d : Config W} → Inv ctx c → Reach ctx c d → Inv ctx d
  Reach-Inv h here = h
  Reach-Inv h (next r st) = Step-Inv st (Reach-Inv h r)

  -- A case as the service submits it.
  abbrev pub submitted : String → KycPackage → W → Config W
  submitted case_id package' w = record {
    state = initial_state case_id package';
    world = w;
    pc = at intake;
  }

  pub submitted-Inv :
      (case_id : String) (package' : KycPackage) (w : W) → Inv ctx (submitted case_id package' w)
  submitted-Inv case_id package' w = (refl, refl, λ e. cc)
