-- ===== src/Graph/Builder/Sound/Assess.antt =====
-- The nodes of graph/nodes.py from the validation on.
use kyc_agent_nordvik.Prelude.{
  ◌≡◌, refl, inl, inr, Bool, true, false, Option, none, some, List, [], ◌∷◌, ◌++◌, All, All-map_of,
  Bool-cases, is_some, if◌then◌else◌,
}
use kyc_agent_nordvik.Effects.{Run}
use kyc_agent_nordvik.Effects.Ensures.{
  Ensures, Returns, IfOk, Anything, skip-Returns, pure-Returns, skip-IfOk, pure-IfOk, Returns-of,
}
use kyc_agent_nordvik.Llm.Resilience.{succeeded, exhausted}
use kyc_agent_nordvik.Rules.Validation.{Checked, done, raise}
use kyc_agent_nordvik.Rules.Validation.Run.{Findings}
use kyc_agent_nordvik.Rules.Validation.Reading.{Passes, IsReadable, run_validation_rules-Passes}
use kyc_agent_nordvik.Schemas.Decisions.{
  RuleFlag, ExtractionResult, ProcessingError, Decision, DecisionOutcome, approve, reject, escalate,
  HumanDecision,
}
use kyc_agent_nordvik.Graph.State.{KycState, apply_update}
use kyc_agent_nordvik.Graph.Context.{PipelineContext}
use kyc_agent_nordvik.Graph.Confidence.{has_error}
use kyc_agent_nordvik.Graph.Nodes.Base.{decision_gate, finalize, docs_by_id}
use kyc_agent_nordvik.Graph.Nodes.Lookup.{get-docs_by_id}
use kyc_agent_nordvik.Graph.Nodes.Quiet.{emit-Returns, resilient-Returns}
use kyc_agent_nordvik.Graph.Nodes.Validate.{
  Grounding, grounded, gave_up, report_recovered, verify, ground_from, grounding, report_flags,
  validated, checked, run_validator, match_thresholds,
}
use kyc_agent_nordvik.Graph.Nodes.Score.{run_risk_scorer, assess, ScreeningResult}
use kyc_agent_nordvik.Graph.Nodes.Score.Answers.{risk_scorer-Returns}
use kyc_agent_nordvik.Graph.Nodes.Decide.{
  gate_by, gate_decision, run_decision_gate, announce, run_auto_decision, run_human_review, close,
  run_finalize, run_handle_error,
}
use kyc_agent_nordvik.Graph.Builder.{at, ended}
use kyc_agent_nordvik.Graph.Builder.Sound.{Fits, Sound, UpdateSound, CommandSound, kept}

if-Returns :
    {W A : Type 0} {P : A → Type 0} (b : Bool) (m n : Run W A)
    → Ensures m (Returns P)
    → Ensures n (Returns P)
    → Ensures (if b then m else n) (Returns P)
if-Returns true m n h k = h
if-Returns false m n h k = k

module _ {W : Type 0} (ctx : PipelineContext W) (s : KycState) (sound : Sound ctx s) where
  report_recovered-Returns :
      (errs : List ProcessingError) → Ensures (report_recovered ctx s errs) (Returns Anything)
  unfolding report_recovered
  report_recovered-Returns [] = pure-Returns _ tt
  report_recovered-Returns (e ∷ errs) = emit-Returns ctx sound.0.quiet _ _ _ _

  ground_from-Returns :
      (es : List ExtractionResult) (flags : List RuleFlag)
      → All (Fits ctx s.kyc_package) es
      → Ensures (ground_from ctx s (docs_by_id s.kyc_package.documents) flags es) (Returns Anything)
  unfolding ground_from verify
  ground_from-Returns [] flags h = pure-Returns _ tt
  ground_from-Returns (e ∷ es) flags h = elim (Bool-cases (has_error e)) [
    | inl failed ↦ rw (failed, ground_from) (ground_from-Returns es flags h.1)
    | inr fine ↦
        let (document, found) = get-docs_by_id e.document_id s.kyc_package.documents h.0.0 in
        rw (fine, found, ground_from)
          (skip-Returns _ _ (resilient-Returns ctx _ _ _ _) (elim [
            | exhausted step errs ↦
                skip-Returns _ _ (emit-Returns ctx sound.0.quiet _ _ _ _) (λ _. pure-Returns _ tt)
            | succeeded more errs ↦
                skip-Returns _ _ (report_recovered-Returns errs)
                  (λ _. ground_from-Returns es (flags ++ more) h.1)
          ]))
  ]

  grounding-Returns : Ensures (grounding ctx s) (Returns Anything)
  unfolding grounding
  grounding-Returns =
      if-Returns ctx.evaluator_enabled _ _ (ground_from-Returns s.extractions [] sound.1)
        (pure-Returns _ tt)

  report_flags-Returns :
      (flags : List RuleFlag) → Ensures (report_flags ctx s flags) (Returns Anything)
  unfolding report_flags
  report_flags-Returns [] = pure-Returns _ tt
  report_flags-Returns (f ∷ flags) =
      skip-Returns _ _ (emit-Returns ctx sound.0.quiet _ _ _ _) (λ _. report_flags-Returns flags)

  validated-Sound :
      (found : Findings) (answer : Grounding)
      → Ensures (validated ctx s found answer) (Returns (CommandSound ctx s))
  unfolding validated apply_update
  validated-Sound found (gave_up errs) = pure-Returns _ (kept ctx s sound)
  validated-Sound found (grounded flags) = skip-Returns _ _ (report_flags-Returns _) (λ _.
      skip-Returns _ _ (emit-Returns ctx sound.0.quiet _ _ _ _)
        (λ _. pure-Returns _ (kept ctx s sound)))

  checked-Sound :
      (r : Checked Findings) → Passes r → Ensures (checked ctx s r) (Returns (CommandSound ctx s))
  unfolding checked
  checked-Sound (raise e) h = absurd h
  checked-Sound (done found) h =
      skip-Returns _ _ grounding-Returns (λ answer. validated-Sound found answer)

  pub validator-Sound : Ensures (run_validator ctx s) (Returns (CommandSound ctx s))
  unfolding run_validator
  validator-Sound = checked-Sound _ (
      run_validation_rules-Passes ctx.python s.kyc_package.applicant ctx.today
        (match_thresholds ctx.settings) s.extractions
        (All-map_of (Fits ctx s.kyc_package) (λ e. IsReadable ctx.python e.fields) s.extractions
          (λ e h. h.1) sound.1))

  -- The assessment adds no extraction.
  assess-Sound :
      (r : ScreeningResult) → Ensures (assess ctx s r) (IfOk (UpdateSound ctx s (at decision_gate)))
  unfolding assess apply_update
  assess-Sound r =
      skip-IfOk _ _ (λ _. skip-IfOk _ _ (λ _. skip-IfOk _ _ (λ _. pure-IfOk _ (kept ctx s sound))))

  scorer-IfOk : Ensures (run_risk_scorer ctx s) (IfOk (UpdateSound ctx s (at decision_gate)))
  unfolding run_risk_scorer
  scorer-IfOk = skip-IfOk _ _ assess-Sound

  pub risk_scorer-Sound :
      Ensures (run_risk_scorer ctx s) (Returns (UpdateSound ctx s (at decision_gate)))
  risk_scorer-Sound =
      Returns-of (run_risk_scorer ctx s) (risk_scorer-Returns ctx sound.0.quiet s) scorer-IfOk

  gate_by-Sound : (o : DecisionOutcome) (d : Decision) → CommandSound ctx s (gate_by o d)
  unfolding apply_update
  gate_by-Sound approve d = (kept ctx s sound, refl)
  gate_by-Sound reject d = (kept ctx s sound, refl)
  gate_by-Sound escalate d = kept ctx s sound

  pub decision_gate-Sound : Ensures (run_decision_gate ctx s) (Returns (CommandSound ctx s))
  unfolding run_decision_gate
  decision_gate-Sound =
      skip-Returns _ _ (emit-Returns ctx sound.0.quiet _ _ _ _)
        (λ _. pure-Returns _ (gate_by-Sound (gate_decision s).outcome (gate_decision s)))

  announce-Sound :
      (o : Option Decision)
      → is_some o ≡ true
      → is_some s.decision ≡ true
      → Ensures (announce ctx s o) (Returns (UpdateSound ctx s (at finalize)))
  unfolding announce apply_update
  announce-Sound none h k = cc
  announce-Sound (some d) h k =
      skip-Returns _ _ (emit-Returns ctx sound.0.quiet _ _ _ _)
        (λ _. pure-Returns _ (kept ctx s sound, k))

  pub auto_decision-Sound :
      is_some s.decision ≡ true
      → Ensures (run_auto_decision ctx s) (Returns (UpdateSound ctx s (at finalize)))
  unfolding run_auto_decision
  auto_decision-Sound h = announce-Sound s.decision h h

  pub human_review-Sound :
      (d : HumanDecision)
      → Ensures (run_human_review ctx s d) (Returns (UpdateSound ctx s (at finalize)))
  unfolding run_human_review apply_update
  human_review-Sound d =
      skip-Returns _ _ (emit-Returns ctx sound.0.quiet _ _ _ _)
        (λ _. pure-Returns _ (kept ctx s sound, refl))

  close-Sound :
      (o : Option Decision)
      → is_some o ≡ true
      → Ensures (close ctx s o) (Returns (UpdateSound ctx s ended))
  unfolding close
  close-Sound none h = cc
  close-Sound (some d) h =
      skip-Returns _ _ (emit-Returns ctx sound.0.quiet _ _ _ _) (λ _. pure-Returns _ tt)

  pub finalize-Sound :
      is_some s.decision ≡ true → Ensures (run_finalize ctx s) (Returns (UpdateSound ctx s ended))
  unfolding run_finalize
  finalize-Sound h = close-Sound s.decision h

  pub handle_error-Sound :
      Ensures (run_handle_error ctx s) (Returns (UpdateSound ctx s (at decision_gate)))
  unfolding run_handle_error apply_update
  handle_error-Sound =
      skip-Returns _ _ (emit-Returns ctx sound.0.quiet _ _ _ _)
        (λ _. pure-Returns _ (kept ctx s sound))
