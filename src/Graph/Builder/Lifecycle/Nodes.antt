-- ===== src/Graph/Builder/Lifecycle/Nodes.antt =====
-- The nodes of graph/builder.py as moves of the specification.
use kyc_agent_nordvik.Prelude.{
  ◌≡◌, refl, sym, ap, ◌∙◌, subst, inl, inr, none, some, List, [], ◌∷◌, All, map,
}
use kyc_agent_nordvik.Schemas.Case.{processing, completed}
use kyc_agent_nordvik.Schemas.Decisions.{Decision}
use kyc_agent_nordvik.Graph.State.{KycState, ExtractTask, apply_update}
use kyc_agent_nordvik.Graph.Context.{PipelineContext}
use kyc_agent_nordvik.Graph.Nodes.Base.{
  NodeName, intake, router, orchestrator, extract_document, validator, risk_scorer, decision_gate,
  auto_decision, human_review, finalize, handle_error, Command,
}
use kyc_agent_nordvik.Graph.Nodes.Decide.{gate_decision, gate_command}
use kyc_agent_nordvik.Graph.Builder.{at, fan, ended, todo, target, run_node}
use kyc_agent_nordvik.Graph.Builder.Invariant.{PcInv, CommandInv, Settled}
use kyc_agent_nordvik.Graph.Builder.Routes.{
  GoesTo, Dispatches, router-GoesTo, orchestrator-Dispatches, validator-GoesTo,
}
use kyc_agent_nordvik.Graph.Builder.Lifecycle.{
  Shown, show, shown, began, closed, Writes, SlotWrites, ShowsAt, IsOpen,
}
use kyc_agent_nordvik.Graph.Builder.Lifecycle.Writes.{
  CommandKeeps, intake-Writes, router-Writes, orchestrator-Writes, validator-Writes,
  risk_scorer-Writes, decision_gate-commands, auto_decision-Writes, finalize-Writes,
  handle_error-Writes,
}
use kyc_agent_nordvik.Graph.Builder.Steps.{orchestrator-Inv}
use kyc_agent_nordvik.Graph.Builder.Lifecycle.Moves.{
  Refines, ConfigRefines, both, update-Refines, command-Refines, map_ok, keeps, moves, goes,
  gate_by-Refines, not_final,
}

todo_slots : (tasks : List ExtractTask) → All SlotWrites (map todo tasks)
todo_slots [] = tt
todo_slots (task ∷ tasks) = (tt, todo_slots tasks)

no_decision : (v : Shown) (d : Decision) → IsOpen v → v.decision ≡ some d → ⊥
no_decision v d h e = cc (ap (λ v. v.decision) h, e)

module _ {W : Type 0} (ctx : PipelineContext W) where
  Settled-decision : (s : KycState) → Settled ctx s → (d : Decision) × (s.decision ≡ some d)
  Settled-decision s (h, inl (e, _)) = (gate_decision s, e)
  Settled-decision s (h, inr (d, e, _, _)) = (d, e)

  dispatched-Refines :
      (s : KycState) (c : Command)
      → IsOpen (shown s)
      → PcInv ctx (apply_update s c.update) (target c.goto)
      → Dispatches c
      → CommandKeeps c
      → Refines (shown s) (apply_update s c.update) (target c.goto)
  dispatched-Refines s c h i (inl e) u =
      subst (λ g. Refines (shown s) (apply_update s c.update) (target g)) (sym e)
        (keeps s (at decision_gate) c.update h u)
  dispatched-Refines s c h i (inr ([], e)) u =
      let (d, f) =
        Settled-decision (apply_update s c.update)
          (subst (λ g. PcInv ctx (apply_update s c.update) (target g)) e i) in
      absurd (
        no_decision (shown (apply_update s c.update)) d (keeps s (at decision_gate) c.update h u).0
          f)
  dispatched-Refines s c h i (inr (task ∷ tasks, e)) u =
      subst (λ g. Refines (shown s) (apply_update s c.update) (target g)) (sym e)
        (keeps s (fan (todo task ∷ map todo tasks)) c.update (h, todo_slots (task ∷ tasks)) u)

  pub run_node-Refines :
      (n : NodeName) (s : KycState) (w : W)
      → PcInv ctx s (at n)
      → ShowsAt (shown s) (at n)
      → ConfigRefines (shown s) (run_node ctx n s w)
  unfolding run_node
  run_node-Refines intake s w i h =
      let e = ap (λ v. show processing v.decision) h in
      update-Refines s (at router) _ _ (not_final (shown s) intake h) (
        map_ok (Writes (some processing) none) _ _
          (λ u k. moves s (at router) u (some processing) none k e (inr (began h e)))
          ((intake-Writes ctx s).at w))
  run_node-Refines router s w i h = command-Refines s _ _ (not_final (shown s) router h) (
      map_ok (λ c. GoesTo handle_error orchestrator c × CommandKeeps c) _ _
        (λ c k. goes s handle_error orchestrator c h h k)
        (both _ _ _ ((router-GoesTo ctx s).at w) ((router-Writes ctx s).at w)))
  run_node-Refines orchestrator s w i h =
      command-Refines s _ _ (not_final (shown s) orchestrator h) (
        map_ok (λ c. ((CommandInv ctx s c) × ((Dispatches c) × (CommandKeeps c)))) _ _
          (λ c k. dispatched-Refines s c h k.0 k.1.0 k.1.1)
          (both _ _ _ ((orchestrator-Inv ctx s i).at w)
            (both _ _ _ ((orchestrator-Dispatches ctx s).at w) ((orchestrator-Writes ctx s).at w))))
  run_node-Refines extract_document s w i h = absurd h
  run_node-Refines validator s w i h = command-Refines s _ _ (not_final (shown s) validator h) (
      map_ok (λ c. GoesTo handle_error risk_scorer c × CommandKeeps c) _ _
        (λ c k. goes s handle_error risk_scorer c h h k)
        (both _ _ _ ((validator-GoesTo ctx s).at w) ((validator-Writes ctx s).at w)))
  run_node-Refines risk_scorer s w i h =
      update-Refines s (at decision_gate) _ _ (not_final (shown s) risk_scorer h) (
        map_ok (Writes none none) _ _ (λ u k. keeps s (at decision_gate) u h k)
          ((risk_scorer-Writes ctx s).at w))
  run_node-Refines decision_gate s w i h =
      command-Refines s _ _ (not_final (shown s) decision_gate h) (
        map_ok (λ c. c ≡ gate_command (gate_decision s)) _ _
          (λ c e.
            subst (λ c. Refines (shown s) (apply_update s c.update) (target c.goto)) (sym e)
              (gate_by-Refines s (gate_decision s).outcome refl h))
          ((decision_gate-commands ctx s).at w))
  run_node-Refines auto_decision s w i (d, e, final, by_system) =
      update-Refines s (at finalize) _ _
        (not_final (shown s) auto_decision (d, e, final, by_system))
        (map_ok (Writes none none) _ _
          (λ u k. keeps s (at finalize) u (processing, d, e, (final, inl (refl, by_system))) k)
          ((auto_decision-Writes ctx s).at w))
  run_node-Refines human_review s w i h = (h, inl refl)
  run_node-Refines finalize s w i (st, d, e, (final, who)) =
      let f = ap (λ v. show completed v.decision) e in
      update-Refines s ended _ _ (not_final (shown s) finalize (st, d, e, (final, who))) (
        map_ok (Writes (some completed) none) _ _
          (λ u k.
            moves s ended u (some completed) none k (d, f, final) (inr (closed st d final who e f)))
          ((finalize-Writes ctx s).at w))
  run_node-Refines handle_error s w i h =
      let e = ap (λ v. show processing v.decision) h in
      update-Refines s (at decision_gate) _ _ (not_final (shown s) handle_error h) (
        map_ok (Writes (some processing) none) _ _
          (λ u k. moves s (at decision_gate) u (some processing) none k e (inl (e ∙ sym h)))
          ((handle_error-Writes ctx s).at w))
