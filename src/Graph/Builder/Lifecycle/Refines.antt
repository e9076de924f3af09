-- ===== src/Graph/Builder/Lifecycle/Refines.antt =====
-- The steps of graph/builder.py as moves of the specification.
use kyc_agent_nordvik.Prelude.{
  ◌≡◌, refl, sym, ap, ◌∙◌, subst, inl, inr, String, none, some, List, [], ◌∷◌, ◌++◌, All,
}
use kyc_agent_nordvik.Effects.{Result, ok, crash}
use kyc_agent_nordvik.Effects.Ensures.{IfOk}
use kyc_agent_nordvik.Schemas.Case.{KycPackage, received, awaiting_human_review}
use kyc_agent_nordvik.Graph.State.{KycState, ExtractTask, Update, apply_update}
use kyc_agent_nordvik.Graph.Context.{PipelineContext}
use kyc_agent_nordvik.Graph.Nodes.Base.{validator, human_review, finalize}
use kyc_agent_nordvik.Graph.Nodes.Decide.{ResumeValue, Review, decided, interrupted, human_decision}
use kyc_agent_nordvik.Graph.Builder.{
  at, fan, Slot, todo, ready, Config, apply_all, after_worker, reviewed, run_worker, resume, Step,
  node, worker, gather, resumed, Reach, here, next,
}
use kyc_agent_nordvik.Graph.Builder.Slots.{All-swap, IfReady, all_ready-IfReady}
use kyc_agent_nordvik.Graph.Builder.Invariant.{Inv, PcInv}
use kyc_agent_nordvik.Graph.Builder.Safety.{submitted, submitted-Inv, Reach-Inv}
use kyc_agent_nordvik.Graph.Builder.Lifecycle.{
  Shown, show, shown, answered, Moves, Lives, born, moved, Writes, SlotWrites, ShowsAt,
  AwaitsReview,
}
use kyc_agent_nordvik.Graph.Builder.Lifecycle.Writes.{worker-Writes, human_review-Writes}
use kyc_agent_nordvik.Graph.Builder.Lifecycle.Moves.{
  shown-apply_update, ConfigRefines, update-Refines, map_ok, moves, outcome_of-final, not_final,
}
use kyc_agent_nordvik.Graph.Builder.Lifecycle.Nodes.{run_node-Refines}

module _ {W : Type 0} (ctx : PipelineContext W) where
  worker-Refines :
      (s : KycState) (before after : List Slot) (task : ExtractTask) (r : Result Update) (w : W)
      → ShowsAt (shown s) (fan (before ++ todo task ∷ after))
      → IfOk (Writes none none) r
      → ConfigRefines (shown s) (after_worker s before after r w)
  unfolding after_worker
  worker-Refines s before after task (ok u) w (h, slots) k =
      ((h, All-swap SlotWrites before after (todo task) (ready u) k slots), inl refl)
  worker-Refines s before after task (crash c) w (h, _) k =
      (not_final (shown s) validator h, inl refl)

  shown-apply_all :
      (us : List Update) (s : KycState)
      → All (Writes none none) us
      → shown (apply_all s us) ≡ shown s
  unfolding apply_all
  shown-apply_all [] s h = refl
  shown-apply_all (u ∷ us) s h =
      shown-apply_all us (apply_update s u) h.1 ∙ shown-apply_update s u none none h.0

  reviewed-Refines :
      (s : KycState) (w : W) (values : List ResumeValue) (r : Review)
      → AwaitsReview (shown s)
      → ConfigRefines (shown s) (reviewed ctx s w values r)
  unfolding reviewed
  reviewed-Refines s w values (decided a) (d, e, escalated) =
      let f = ap (λ v. show v.status (some (human_decision v.decision a))) e in
      update-Refines s (at finalize) _ _ (not_final (shown s) human_review (d, e, escalated)) (
        map_ok (Writes none (some (human_decision s.decision a))) _ _
          (λ u k.
            moves s (at finalize) u none (some (human_decision s.decision a)) k
              (
                awaiting_human_review,
                human_decision (some d) a,
                f,
                (outcome_of-final a.outcome, inr (refl, refl)),
              )
              (inr (answered d a escalated e f)))
          ((human_review-Writes ctx s a).at w))
  reviewed-Refines s w values (interrupted payload) h = (h, inl refl)

  Step-Refines :
      {c d : Config W}
      → Step ctx c d
      → Inv ctx c
      → ShowsAt (shown c.state) c.pc
      → ConfigRefines (shown c.state) d
  unfolding run_worker resume
  Step-Refines {c} {d} (node n p e) i h = subst (ConfigRefines (shown c.state)) (sym e) (
      run_node-Refines ctx n c.state c.world (subst (PcInv ctx c.state) p i)
        (subst (ShowsAt (shown c.state)) p h))
  Step-Refines {c} {d} (worker before task after p e) i h =
      subst (ConfigRefines (shown c.state)) (sym e) (
        worker-Refines c.state before after task _ _ (subst (ShowsAt (shown c.state)) p h)
          ((worker-Writes ctx task).at c.world))
  Step-Refines {c} {d} (gather slots us p r e) i h =
      let k = subst (ShowsAt (shown c.state)) p h in
      let f =
        shown-apply_all us c.state
          (subst (IfReady SlotWrites) r (all_ready-IfReady SlotWrites slots k.1)) in
      subst (ConfigRefines (shown c.state)) (sym e) (f ∙ k.0, inl f)
  Step-Refines {c} {d} (resumed values value p e) i h =
      subst (ConfigRefines (shown c.state)) (sym e) (
        reviewed-Refines c.state c.world (values ++ value ∷ []) _
          (subst (ShowsAt (shown c.state)) p h))

  Lives-Moves : {v v' v'' : Shown} → Lives v v' → Moves v' v'' → Lives v v''
  Lives-Moves {v} h (inl e) = subst (Lives v) (sym e) h
  Lives-Moves h (inr m) = moved h m

  Reach-Refines :
      {c d : Config W}
      → Inv ctx c
      → ShowsAt (shown c.state) c.pc
      → Reach ctx c d
      → Lives (shown c.state) (shown d.state) × ShowsAt (shown d.state) d.pc
  Reach-Refines i h here = (born, h)
  Reach-Refines i h (next r st) =
      let (lives, shows) = Reach-Refines i h r in
      let (shows', m) = Step-Refines st (Reach-Inv ctx i r) shows in (Lives-Moves lives m, shows')

  -- On every way that a submitted case takes through the graph, whatever the services, the
  -- registries and the reviewers answer, its status and its decision change only as the
  -- specification says, from `received` and no decision on.
  pub submitted-Lives :
      (case_id : String) (package' : KycPackage) (w : W) (c : Config W)
      → Reach ctx (submitted ctx case_id package' w) c
      → Lives (show received none) (shown c.state)
  submitted-Lives case_id package' w c r =
      (Reach-Refines (submitted-Inv ctx case_id package' w) refl r).0

  -- At every point of the graph, the status and the decision of a submitted case are those of this
  -- point: it awaits a human exactly with an escalation, and it is completed with a final decision
  -- when it has ended.
  pub submitted-ShowsAt :
      (case_id : String) (package' : KycPackage) (w : W) (c : Config W)
      → Reach ctx (submitted ctx case_id package' w) c
      → ShowsAt (shown c.state) c.pc
  submitted-ShowsAt case_id package' w c r =
      (Reach-Refines (submitted-Inv ctx case_id package' w) refl r).1
