-- ===== src/Graph/Trail/Complete.antt =====
-- The audit trail of a case of graph/builder.py, from its submission to its end.
use kyc_agent_nordvik.Prelude.{◌≡◌, sym, ap, subst, String, some, List, [], ◌∷◌, ◌++◌}
use kyc_agent_nordvik.Audit.Sink.{AuditEvent}
use kyc_agent_nordvik.Schemas.Case.{KycPackage}
use kyc_agent_nordvik.Schemas.Decisions.{Decision}
use kyc_agent_nordvik.Graph.State.{KycState}
use kyc_agent_nordvik.Graph.Context.{PipelineContext}
use kyc_agent_nordvik.Graph.Nodes.Base.{
  NodeName, intake, router, orchestrator, extract_document, validator, risk_scorer, decision_gate,
  auto_decision, human_review, finalize, handle_error,
}
use kyc_agent_nordvik.Graph.Nodes.Decide.{ResumeValue, Review, decided, interrupted}
use kyc_agent_nordvik.Graph.Builder.{
  at, waiting, ended, Config, run_node, run_worker, reviewed, resume, Step, node, worker, gather,
  resumed, Reach, here, next,
}
use kyc_agent_nordvik.Graph.Builder.Routes.{
  router-GoesTo, orchestrator-Dispatches, validator-GoesTo,
}
use kyc_agent_nordvik.Graph.Builder.Safety.{submitted}
use kyc_agent_nordvik.Graph.Builder.Lifecycle.{shown, ShowsAt}
use kyc_agent_nordvik.Graph.Builder.Lifecycle.Writes.{
  orchestrator-Writes, auto_decision-Writes, human_review-Writes, finalize-Writes,
}
use kyc_agent_nordvik.Graph.Builder.Lifecycle.Refines.{submitted-ShowsAt}
use kyc_agent_nordvik.Graph.Trail.{Logged, Records, closing_event}
use kyc_agent_nordvik.Graph.Trail.Tells.{
  Founded, Told, ConfigTold, after_worker-Told, silent-Told, sent-Told,
}
use kyc_agent_nordvik.Graph.Trail.Ends.{
  after_dispatch, after_gate, after_announcement, after_closing, after_answer,
}
use kyc_agent_nordvik.Graph.Trail.Grows.{auto_decision-Grow, human_review-Grow, finalize-Grow}
use kyc_agent_nordvik.Graph.Trail.Events.{
  decision_gate-Leaves, auto_decision-Leaves, human_review-Leaves, finalize-Leaves,
}

module _ {W : Type 0} (log : W → List AuditEvent) (ctx : PipelineContext W)
    (records : Records log ctx) where
  run_node-Told :
      (n : NodeName) (s : KycState) (w : W)
      → ShowsAt (shown s) (at n)
      → Told log s w (at n)
      → ConfigTold log (run_node ctx n s w)
  unfolding run_node
  run_node-Told intake s w i h = silent-Told log (at router) (λ s d w. tt) s _ _
  run_node-Told router s w i h =
      sent-Told log s handle_error orchestrator _ _ (λ s d w. tt) (λ s d w. tt)
        ((router-GoesTo ctx s).at w)
  run_node-Told orchestrator s w i h =
      after_dispatch log s _ _ (ap (λ v. v.decision) i) ((orchestrator-Dispatches ctx s).at w)
        ((orchestrator-Writes ctx s).at w)
  run_node-Told extract_document s w i h = absurd i
  run_node-Told validator s w i h =
      sent-Told log s handle_error risk_scorer _ _ (λ s d w. tt) (λ s d w. tt)
        ((validator-GoesTo ctx s).at w)
  run_node-Told risk_scorer s w i h = silent-Told log (at decision_gate) (λ s d w. tt) s _ _
  run_node-Told decision_gate s w i h =
      after_gate log s _ _ ((decision_gate-Leaves log ctx records s).at w)
  run_node-Told auto_decision s w i h =
      after_announcement log s _ w _ h ((auto_decision-Grow log ctx records.keeps s).at w)
        ((auto_decision-Writes ctx s).at w) ((auto_decision-Leaves log ctx records s).at w)
  run_node-Told human_review s w i h = h
  run_node-Told finalize s w i h =
      after_closing log s _ w _ h ((finalize-Grow log ctx records.keeps s).at w)
        ((finalize-Writes ctx s).at w) ((finalize-Leaves log ctx records s).at w)
  run_node-Told handle_error s w i h = silent-Told log (at decision_gate) (λ s d w. tt) s _ _

  reviewed-Told :
      (s : KycState) (w : W) (values : List ResumeValue) (r : Review)
      → ShowsAt (shown s) (waiting values)
      → Told log s w (at human_review)
      → ConfigTold log (reviewed ctx s w values r)
  unfolding reviewed
  reviewed-Told s w values (decided a) (d, e, _) h =
      after_answer log s a _ w _ (d, ap (λ v. v.decision) e) h
        ((human_review-Grow log ctx records.keeps s a).at w) ((human_review-Writes ctx s a).at w)
        ((human_review-Leaves log ctx records s a).at w)
  reviewed-Told s w values (interrupted payload) i h = h

  Step-Told :
      {c d : Config W}
      → Step ctx c d
      → ShowsAt (shown c.state) c.pc
      → ConfigTold log c
      → ConfigTold log d
  unfolding run_worker resume
  Step-Told {c} {d} (node n p e) i h = subst (ConfigTold log) (sym e) (
      run_node-Told n c.state c.world (subst (ShowsAt (shown c.state)) p i)
        (subst (Told log c.state c.world) p h))
  Step-Told {c} {d} (worker before task after p e) i h =
      subst (ConfigTold log) (sym e) (after_worker-Told log c.state before after _ _)
  Step-Told {c} {d} (gather slots us p r e) i h = subst (ConfigTold log) (sym e) (λ d e. tt)
  Step-Told {c} {d} (resumed values value p e) i h = subst (ConfigTold log) (sym e) (
      reviewed-Told c.state c.world (values ++ value ∷ []) _ (subst (ShowsAt (shown c.state)) p i)
        (subst (Told log c.state c.world) p h))

  Reach-Told :
      (case_id : String) (package' : KycPackage) (w : W) {c : Config W}
      → Reach ctx (submitted ctx case_id package' w) c
      → ConfigTold log c
  Reach-Told case_id package' w here = λ d e. tt
  Reach-Told case_id package' w {c} (next {d = b} r st) =
      Step-Told st (submitted-ShowsAt ctx case_id package' w b r) (Reach-Told case_id package' w r)

  -- A submitted case that has ended, whatever the services, the registries and the reviewers
  -- answered, if every write to its sink appends the event (none fails) and nothing else takes an
  -- event out of the trail: its state has a decision; the trail has, at some time each, the
  -- event that closes the case with this decision, and either the gate's event and the announcement
  -- of the same decision, or the gate's event of the decision that a human answered, and the event
  -- of this human review.
  pub ended-Founded :
      (case_id : String) (package' : KycPackage) (w : W) (c : Config W)
      → Reach ctx (submitted ctx case_id package' w) c
      → c.pc ≡ ended
      → (d : Decision) × (c.state.decision ≡ some d)
        × Founded log c.state d c.world
        × Logged log (closing_event c.state d) c.world
  ended-Founded case_id package' w c r p =
      let (d, e, _) =
        subst (ShowsAt (shown c.state)) p (submitted-ShowsAt ctx case_id package' w c r) in
      let f = ap (λ v. v.decision) e in
      let (founded, closing) =
        subst (Told log c.state c.world) p (Reach-Told case_id package' w r) d f in
      (d, f, founded, closing)
