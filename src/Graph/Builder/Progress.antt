-- ===== src/Graph/Builder/Progress.antt =====
-- How a case of graph/builder.py comes to rest, from its last node back to the first.
use kyc_agent_nordvik.Prelude.{
  ◌≡◌, refl, sym, ap, subst, inl, inr, String, some, List, [], ◌∷◌, ◌++◌, map,
}
use kyc_agent_nordvik.Effects.{Result, ok, crash}
use kyc_agent_nordvik.Effects.Ensures.{IfOk}
use kyc_agent_nordvik.Schemas.Case.{KycPackage}
use kyc_agent_nordvik.Graph.State.{KycState, ExtractTask, Update, apply_update}
use kyc_agent_nordvik.Graph.Context.{PipelineContext}
use kyc_agent_nordvik.Graph.Nodes.Base.{
  NodeName, intake, router, orchestrator, validator, risk_scorer, decision_gate, auto_decision,
  human_review, finalize, handle_error, sends, Command,
}
use kyc_agent_nordvik.Graph.Nodes.Extract.{run_extract_document}
use kyc_agent_nordvik.Graph.Builder.{
  Slot, todo, ready, Pc, at, fan, waiting, ended, crashed, Config, target, all_ready, apply_all,
  after_update, after_command, after_worker, run_node, run_worker, Step, node, worker, gather,
  Reach, here, next,
}
use kyc_agent_nordvik.Graph.Builder.Routes.{
  GoesTo, Dispatches, router-GoesTo, orchestrator-Dispatches, validator-GoesTo,
  decision_gate-GoesTo,
}
use kyc_agent_nordvik.Graph.Builder.Safety.{submitted}

-- At its end, before a human, or at an exception.
abbrev pub Stopped : Pc → Type 0
Stopped (at n) = ⊥
Stopped (fan slots) = ⊥
Stopped (waiting values) = Unit
Stopped ended = Unit
Stopped (crashed c) = Unit

all_ready-map : (us : List Update) → all_ready (map ready us ++ []) ≡ some us
unfolding all_ready
all_ready-map [] = refl
all_ready-map (u ∷ us) = rw (all_ready-map us) refl

map-ready_snoc :
    (us : List Update) (u : Update) (slots : List Slot)
    → map ready us ++ ready u ∷ slots ≡ map ready (us ++ u ∷ []) ++ slots
map-ready_snoc [] u slots = refl
map-ready_snoc (v ∷ us) u slots = ap (λ l. ready v ∷ l) (map-ready_snoc us u slots)

module _ {W : Type 0} (ctx : PipelineContext W) where
  -- Some steps take the case to where it stops.
  abbrev pub Halts : Config W → Type 0
  Halts c = (d : Config W) × Reach ctx c d × Stopped d.pc

  abbrev config : KycState → W → Pc → Config W
  config s w pc = record { state = s; world = w; pc = pc }

  abbrev HaltsFrom : Pc → Type 0
  HaltsFrom pc = (s : KycState) (w : W) → Halts (config s w pc)

  Reach-cons : {c d e : Config W} → Step ctx c d → Reach ctx d e → Reach ctx c e
  Reach-cons st here = next here st
  Reach-cons st (next r t) = next (Reach-cons st r) t

  Halts-cons : {c d : Config W} → Step ctx c d → Halts d → Halts c
  Halts-cons st (e, r, h) = (e, Reach-cons st r, h)

  after_update-Halts :
      (s : KycState) (pc : Pc) (r : Result Update) (w : W)
      → HaltsFrom pc
      → Halts (after_update s pc r w)
  unfolding after_update
  after_update-Halts s pc (ok u) w h = h (apply_update s u) w
  after_update-Halts s pc (crash c) w h = (_, here, tt)

  after_command-Halts :
      (P : Command → Type 0) (s : KycState) (r : Result Command) (w : W)
      → IfOk P r
      → ((c : Command) → P c → HaltsFrom (target c.goto))
      → Halts (after_command s r w)
  unfolding after_command
  after_command-Halts P s (ok c) w p h = h c p (apply_update s c.update) w
  after_command-Halts P s (crash c) w p h = (_, here, tt)

  goes_to :
      (a b : NodeName)
      → HaltsFrom (at a)
      → HaltsFrom (at b)
      → (c : Command) → GoesTo a b c
      → HaltsFrom (target c.goto)
  goes_to a b x y c (inl e) = subst (λ g. HaltsFrom (target g)) (sym e) x
  goes_to a b x y c (inr e) = subst (λ g. HaltsFrom (target g)) (sym e) y

  -- From the last node back to the first.
  finalize-Halts : HaltsFrom (at finalize)
  unfolding run_node
  finalize-Halts s w =
      Halts-cons (node finalize refl refl) (after_update-Halts s ended _ _ (λ s' w'. (_, here, tt)))

  auto_decision-Halts : HaltsFrom (at auto_decision)
  unfolding run_node
  auto_decision-Halts s w =
      Halts-cons (node auto_decision refl refl)
        (after_update-Halts s (at finalize) _ _ finalize-Halts)

  human_review-Halts : HaltsFrom (at human_review)
  unfolding run_node
  human_review-Halts s w = Halts-cons (node human_review refl refl) (_, here, tt)

  decision_gate-Halts : HaltsFrom (at decision_gate)
  unfolding run_node
  decision_gate-Halts s w = Halts-cons (node decision_gate refl refl) (
      after_command-Halts (GoesTo human_review auto_decision) s _ _
        ((decision_gate-GoesTo ctx s).at w)
        (goes_to human_review auto_decision human_review-Halts auto_decision-Halts))

  risk_scorer-Halts : HaltsFrom (at risk_scorer)
  unfolding run_node
  risk_scorer-Halts s w =
      Halts-cons (node risk_scorer refl refl)
        (after_update-Halts s (at decision_gate) _ _ decision_gate-Halts)

  handle_error-Halts : HaltsFrom (at handle_error)
  unfolding run_node
  handle_error-Halts s w =
      Halts-cons (node handle_error refl refl)
        (after_update-Halts s (at decision_gate) _ _ decision_gate-Halts)

  validator-Halts : HaltsFrom (at validator)
  unfolding run_node
  validator-Halts s w = Halts-cons (node validator refl refl) (
      after_command-Halts (GoesTo handle_error risk_scorer) s _ _ ((validator-GoesTo ctx s).at w)
        (goes_to handle_error risk_scorer handle_error-Halts risk_scorer-Halts))

  after_worker-Halts :
      (s : KycState) (before after : List Slot) (r : Result Update) (w : W)
      → ((u : Update) → Halts (config s w (fan (before ++ ready u ∷ after))))
      → Halts (after_worker s before after r w)
  unfolding after_worker
  after_worker-Halts s before after (ok u) w h = h u
  after_worker-Halts s before after (crash c) w h = (_, here, tt)

  fan-Halts :
      (tasks : List ExtractTask) (us : List Update) (s : KycState) (w : W)
      → Halts (config s w (fan (map ready us ++ map todo tasks)))
  unfolding run_worker
  fan-Halts [] us s w =
      Halts-cons (gather (map ready us ++ []) us refl (all_ready-map us) refl)
        (validator-Halts (apply_all s us) w)
  fan-Halts (task ∷ tasks) us s w =
      Halts-cons (worker (map ready us) task (map todo tasks) refl refl) (
        after_worker-Halts s (map ready us) (map todo tasks) (run_extract_document ctx task w).0
          (run_extract_document ctx task w).1
          (λ u.
            subst (λ slots. Halts (config s (run_extract_document ctx task w).1 (fan slots)))
              (sym (map-ready_snoc us u (map todo tasks)))
              (fan-Halts tasks (us ++ u ∷ []) s (run_extract_document ctx task w).1)))

  sends-Halts : (tasks : List ExtractTask) → HaltsFrom (target (sends tasks))
  sends-Halts [] s w = (_, here, tt)
  sends-Halts (task ∷ tasks) s w = fan-Halts (task ∷ tasks) [] s w

  dispatched-Halts : (c : Command) → Dispatches c → HaltsFrom (target c.goto)
  dispatched-Halts c (inl e) = subst (λ g. HaltsFrom (target g)) (sym e) decision_gate-Halts
  dispatched-Halts c (inr (tasks, e)) =
      subst (λ g. HaltsFrom (target g)) (sym e) (sends-Halts tasks)

  orchestrator-Halts : HaltsFrom (at orchestrator)
  unfolding run_node
  orchestrator-Halts s w =
      Halts-cons (node orchestrator refl refl) (
        after_command-Halts Dispatches s _ _ ((orchestrator-Dispatches ctx s).at w)
          dispatched-Halts)

  router-Halts : HaltsFrom (at router)
  unfolding run_node
  router-Halts s w = Halts-cons (node router refl refl) (
      after_command-Halts (GoesTo handle_error orchestrator) s _ _ ((router-GoesTo ctx s).at w)
        (goes_to handle_error orchestrator handle_error-Halts orchestrator-Halts))

  intake-Halts : HaltsFrom (at intake)
  unfolding run_node
  intake-Halts s w =
      Halts-cons (node intake refl refl) (after_update-Halts s (at router) _ _ router-Halts)

  -- Whatever the outside world does, some steps take a submitted case to its end, to a human
  -- review, or to an exception that leaves a node.
  pub submitted-Halts :
      (case_id : String) (package' : KycPackage) (w : W) → Halts (submitted ctx case_id package' w)
  submitted-Halts case_id package' w = intake-Halts (submitted ctx case_id package' w).state w
