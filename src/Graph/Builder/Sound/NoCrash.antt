-- ===== src/Graph/Builder/Sound/NoCrash.antt =====
-- No exception leaves a node, on any way through graph/builder.py.
use kyc_agent_nordvik.Prelude.{◌≢◌, sym, subst, String, List, [], ◌∷◌, ◌++◌, All, All-append}
use kyc_agent_nordvik.Effects.{Result, ok, crash, Crash}
use kyc_agent_nordvik.Effects.Ensures.{Returns}
use kyc_agent_nordvik.Schemas.Case.{KycPackage}
use kyc_agent_nordvik.Graph.State.{KycState, ExtractTask, Update, apply_update}
use kyc_agent_nordvik.Graph.Context.{PipelineContext}
use kyc_agent_nordvik.Graph.Nodes.Base.{
  NodeName, intake, router, orchestrator, extract_document, validator, risk_scorer, decision_gate,
  auto_decision, human_review, finalize, handle_error, Command,
}
use kyc_agent_nordvik.Graph.Nodes.Decide.{Review, decided, interrupted, ResumeValue}
use kyc_agent_nordvik.Graph.Builder.{
  Pc, at, fan, waiting, ended, crashed, Slot, todo, ready, Config, apply_all, after_update,
  after_command, after_worker, run_node, run_worker, resume, reviewed, Step, node, worker, gather,
  resumed, Reach, here, next,
}
use kyc_agent_nordvik.Graph.Builder.Slots.{All-at, All-swap, IfReady, all_ready-IfReady}
use kyc_agent_nordvik.Graph.Builder.Safety.{submitted}
use kyc_agent_nordvik.Graph.Builder.Progress.{Stopped, submitted-Halts}
use kyc_agent_nordvik.Graph.Builder.Sound.{
  Honours, Fits, SlotFits, Sound, SoundAt, UpdateSound, CommandSound,
}
use kyc_agent_nordvik.Graph.Builder.Sound.Intake.{
  intake-Sound, router-Sound, orchestrator-Sound, worker-Fits,
}
use kyc_agent_nordvik.Graph.Builder.Sound.Assess.{
  validator-Sound, risk_scorer-Sound, decision_gate-Sound, auto_decision-Sound, human_review-Sound,
  finalize-Sound, handle_error-Sound,
}

module _ {W : Type 0} (ctx : PipelineContext W) where
  abbrev SoundConfig : Config W → Type 0
  SoundConfig c = SoundAt ctx c.state c.pc

  after_update-Sound :
      (s : KycState) (pc : Pc) (r : Result Update) (w : W)
      → Returns (UpdateSound ctx s pc) r
      → SoundConfig (after_update s pc r w)
  unfolding after_update
  after_update-Sound s pc (ok u) w h = h
  after_update-Sound s pc (crash c) w h = h

  after_command-Sound :
      (s : KycState) (r : Result Command) (w : W)
      → Returns (CommandSound ctx s) r
      → SoundConfig (after_command s r w)
  unfolding after_command
  after_command-Sound s (ok c) w h = h
  after_command-Sound s (crash c) w h = h

  run_node-Sound :
      (n : NodeName) (s : KycState) (w : W)
      → SoundAt ctx s (at n)
      → SoundConfig (run_node ctx n s w)
  unfolding run_node
  run_node-Sound intake s w h = after_update-Sound s (at router) _ _ ((intake-Sound ctx s h).at w)
  run_node-Sound router s w h = after_command-Sound s _ _ ((router-Sound ctx s h).at w)
  run_node-Sound orchestrator s w (h, cl) =
      after_command-Sound s _ _ ((orchestrator-Sound ctx s h cl).at w)
  run_node-Sound extract_document s w h = absurd h
  run_node-Sound validator s w h = after_command-Sound s _ _ ((validator-Sound ctx s h).at w)
  run_node-Sound risk_scorer s w h =
      after_update-Sound s (at decision_gate) _ _ ((risk_scorer-Sound ctx s h).at w)
  run_node-Sound decision_gate s w h =
      after_command-Sound s _ _ ((decision_gate-Sound ctx s h).at w)
  run_node-Sound auto_decision s w (h, d) =
      after_update-Sound s (at finalize) _ _ ((auto_decision-Sound ctx s h d).at w)
  run_node-Sound human_review s w h = h
  run_node-Sound finalize s w (h, d) =
      after_update-Sound s ended _ _ ((finalize-Sound ctx s h d).at w)
  run_node-Sound handle_error s w h =
      after_update-Sound s (at decision_gate) _ _ ((handle_error-Sound ctx s h).at w)

  after_worker-Sound :
      (s : KycState) (before after : List Slot) (task : ExtractTask) (r : Result Update) (w : W)
      → Sound ctx s
      → All (SlotFits ctx s.kyc_package) (before ++ todo task ∷ after)
      → Returns (λ u. All (Fits ctx s.kyc_package) u.extractions) r
      → SoundConfig (after_worker s before after r w)
  unfolding after_worker
  after_worker-Sound s before after task (ok u) w h slots k =
      (h, All-swap (SlotFits ctx s.kyc_package) before after (todo task) (ready u) k slots)
  after_worker-Sound s before after task (crash c) w h slots k = k

  apply_all-Sound :
      (us : List Update) (s : KycState)
      → All (λ u. SlotFits ctx s.kyc_package (ready u)) us
      → Sound ctx s
      → Sound ctx (apply_all s us)
  unfolding apply_all apply_update
  apply_all-Sound [] s h k = k
  apply_all-Sound (u ∷ us) s h (honours, fits) =
      apply_all-Sound us (apply_update s u) h.1
        (honours, All-append (Fits ctx s.kyc_package) s.extractions u.extractions fits h.0)

  reviewed-Sound :
      (s : KycState) (w : W) (values : List ResumeValue) (r : Review)
      → Sound ctx s
      → SoundConfig (reviewed ctx s w values r)
  unfolding reviewed
  reviewed-Sound s w values (decided d) h =
      after_update-Sound s (at finalize) _ _ ((human_review-Sound ctx s h d).at w)
  reviewed-Sound s w values (interrupted payload) h = h

  Step-Sound : {c d : Config W} → Step ctx c d → SoundConfig c → SoundConfig d
  unfolding run_worker resume
  Step-Sound {c} {d} (node n p e) h =
      subst SoundConfig (sym e) (run_node-Sound n c.state c.world (subst (SoundAt ctx c.state) p h))
  Step-Sound {c} {d} (worker before task after p e) h =
      let k = subst (SoundAt ctx c.state) p h in
      subst SoundConfig (sym e) (
        after_worker-Sound c.state before after task _ _ k.0 k.1 (
          (worker-Fits ctx c.state.kyc_package k.0.0 task
              (All-at (SlotFits ctx c.state.kyc_package) before after (todo task) k.1)).at
            c.world))
  Step-Sound {c} {d} (gather slots us p r e) h =
      let k = subst (SoundAt ctx c.state) p h in
      subst SoundConfig (sym e) (
        apply_all-Sound us c.state
          (subst (IfReady (SlotFits ctx c.state.kyc_package)) r
            (all_ready-IfReady (SlotFits ctx c.state.kyc_package) slots k.1))
          k.0)
  Step-Sound {c} {d} (resumed values value p e) h =
      subst SoundConfig (sym e)
        (reviewed-Sound c.state c.world (values ++ value ∷ []) _ (subst (SoundAt ctx c.state) p h))

  Reach-Sound : {c d : Config W} → SoundConfig c → Reach ctx c d → SoundConfig d
  Reach-Sound h here = h
  Reach-Sound h (next r st) = Step-Sound st (Reach-Sound h r)

  not_crashed : (c : Config W) (e : Crash) → SoundConfig c → c.pc ≢ crashed e
  not_crashed c e h p = subst (SoundAt ctx c.state) p h

  -- If the services answer as their contract says, for the documents of the package, and the audit
  -- sink never raises, then no exception leaves a node, however the services and the registries
  -- fail and whatever a review is resumed with.
  pub submitted-no_crash :
      (case_id : String) (package' : KycPackage) (w : W) (c : Config W) (e : Crash)
      → Honours ctx package'
      → Reach ctx (submitted ctx case_id package' w) c
      → c.pc ≢ crashed e
  submitted-no_crash case_id package' w c e honours r =
      not_crashed c e (Reach-Sound (honours, tt) r)

  -- Where a case rests without a crash.
  abbrev pub Rests : Pc → Type 0
  Rests (at n) = ⊥
  Rests (fan slots) = ⊥
  Rests (waiting values) = Unit
  Rests ended = Unit
  Rests (crashed c) = ⊥

  Stopped-Rests : (s : KycState) (pc : Pc) → SoundAt ctx s pc → Stopped pc → Rests pc
  Stopped-Rests s (at n) h k = absurd k
  Stopped-Rests s (fan slots) h k = absurd k
  Stopped-Rests s (waiting values) h k = tt
  Stopped-Rests s ended h k = tt
  Stopped-Rests s (crashed c) h k = absurd h

  -- If the services answer as their contract says, for the documents of the package, and the audit
  -- sink never raises, then some steps take a submitted case to its end or to a human review.
  pub submitted-Rests :
      (case_id : String) (package' : KycPackage) (w : W)
      → Honours ctx package'
      → (c : Config W) × Reach ctx (submitted ctx case_id package' w) c × Rests c.pc
  submitted-Rests case_id package' w honours =
      let (c, r, stopped) = submitted-Halts ctx case_id package' w in
      (c, r, Stopped-Rests c.state c.pc (Reach-Sound (honours, tt) r) stopped)
