-- ===== src/Graph/Builder/Closing.antt =====
-- The gate of graph/nodes.py and the nodes behind it, against the invariant of the graph.
use mathlib.Core.List.{append-nil}
use kyc_agent_nordvik.Prelude.{
  ◌≡◌, ◌≢◌, ◌∙◌, sym, refl, inl, inr, true, Option, none, some, nonempty,
}
use kyc_agent_nordvik.Effects.Ensures.{Ensures, IfOk, skip-IfOk, pure-IfOk, fail-IfOk}
use kyc_agent_nordvik.Schemas.Decisions.{
  Decision, approve, reject, escalate, DecisionOutcome, ReviewOutcome, approved, rejected,
  HumanDecision,
}
use kyc_agent_nordvik.Graph.State.{KycState, apply_update}
use kyc_agent_nordvik.Graph.Context.{PipelineContext}
use kyc_agent_nordvik.Graph.Nodes.Base.{decision_gate, auto_decision, finalize}
use kyc_agent_nordvik.Graph.Nodes.Decide.{
  gate_decision, run_decision_gate, run_auto_decision, run_human_review, run_finalize,
  run_handle_error, gate_by, announce, close, human_decision, outcome_of,
}
use kyc_agent_nordvik.Graph.Builder.{at, ended}
use kyc_agent_nordvik.Graph.Builder.Invariant.{
  Undecided, Settled, PcInv, UpdateInv, CommandInv, Entry,
}

approve-ne-escalate : ◌≢◌ {A = DecisionOutcome} approve escalate
approve-ne-escalate e = cc

reject-ne-escalate : ◌≢◌ {A = DecisionOutcome} reject escalate
reject-ne-escalate e = cc

outcome_of-ne-escalate : (o : ReviewOutcome) → outcome_of o ≢ escalate
outcome_of-ne-escalate approved e = cc
outcome_of-ne-escalate rejected e = cc

module _ {W : Type 0} (ctx : PipelineContext W) (s : KycState) where
  -- The gate and the nodes behind it change the decision and the status only.
  gate_by-Inv :
      (o : DecisionOutcome)
      → (gate_decision s).outcome ≡ o
      → Entry ctx s
      → CommandInv ctx s (gate_by o (gate_decision s))
  unfolding apply_update
  gate_by-Inv approve e h = simp append-nil (h, refl, λ q. approve-ne-escalate (sym e ∙ q))
  gate_by-Inv reject e h = simp append-nil (h, refl, λ q. reject-ne-escalate (sym e ∙ q))
  gate_by-Inv escalate e h = simp append-nil (h, refl, e)

  pub decision_gate-Inv :
      (s.decision ≡ none) × Entry ctx s
      → Ensures (run_decision_gate ctx s) (IfOk (CommandInv ctx s))
  unfolding run_decision_gate
  decision_gate-Inv (_, h) =
      skip-IfOk _ _ (λ _. pure-IfOk _ (gate_by-Inv (gate_decision s).outcome refl h))

  announce-Inv :
      (o : Option Decision)
      → PcInv ctx s (at auto_decision)
      → Ensures (announce ctx s o) (IfOk (UpdateInv ctx s (at finalize)))
  unfolding announce apply_update
  announce-Inv none h = fail-IfOk _
  announce-Inv (some d) h = skip-IfOk _ _ (λ _. pure-IfOk _ (simp append-nil (h.0, inl (h.1, h.2))))

  pub auto_decision-Inv :
      PcInv ctx s (at auto_decision)
      → Ensures (run_auto_decision ctx s) (IfOk (UpdateInv ctx s (at finalize)))
  unfolding run_auto_decision
  auto_decision-Inv h = announce-Inv s.decision h

  pub human_review-Inv :
      (d : HumanDecision)
      → Entry ctx s
      → Ensures (run_human_review ctx s d) (IfOk (UpdateInv ctx s (at finalize)))
  unfolding run_human_review apply_update
  human_review-Inv d h = skip-IfOk _ _ (λ _. pure-IfOk _ (
      simp append-nil
        (h, inr (human_decision s.decision d, refl, refl, outcome_of-ne-escalate d.outcome))))

  close-Inv :
      (o : Option Decision) → Settled ctx s → Ensures (close ctx s o) (IfOk (UpdateInv ctx s ended))
  unfolding close apply_update
  close-Inv none h = fail-IfOk _
  close-Inv (some d) h = skip-IfOk _ _ (λ _. pure-IfOk _ (simp append-nil h))

  pub finalize-Inv : Settled ctx s → Ensures (run_finalize ctx s) (IfOk (UpdateInv ctx s ended))
  unfolding run_finalize
  finalize-Inv h = close-Inv s.decision h

  pub handle_error-Inv :
      Undecided ctx s × (nonempty s.degraded_reasons ≡ true)
      → Ensures (run_handle_error ctx s) (IfOk (UpdateInv ctx s (at decision_gate)))
  unfolding run_handle_error apply_update
  handle_error-Inv (h, d) = skip-IfOk _ _ (λ _. pure-IfOk _ (simp append-nil (h.0, (h.2, inl d))))
