-- ===== src/Graph/Trail/Ends.antt =====
-- The audit trail behind the nodes of graph/nodes.py that take, announce and close a decision.
use mathlib.Core.List.{append-nil}
use kyc_agent_nordvik.Prelude.{
  ◌≡◌, sym, ap, ◌∙◌, subst, inl, inr, Option, none, some, List, ◌++◌, nonempty,
}
use kyc_agent_nordvik.Effects.{Result, ok, crash}
use kyc_agent_nordvik.Effects.Ensures.{IfOk}
use kyc_agent_nordvik.Effects.Tracks.{IfOkAt}
use kyc_agent_nordvik.Audit.Sink.{AuditEvent}
use kyc_agent_nordvik.Schemas.Case.{completed}
use kyc_agent_nordvik.Schemas.Decisions.{
  Decision, DecisionOutcome, approve, reject, escalate, HumanDecision,
}
use kyc_agent_nordvik.Graph.State.{KycState, Update, apply_update, last_written}
use kyc_agent_nordvik.Graph.Nodes.Base.{auto_decision, human_review, finalize, Command}
use kyc_agent_nordvik.Graph.Nodes.Decide.{gate_decision, gate_by, gate_command, human_decision}
use kyc_agent_nordvik.Graph.Builder.{at, ended, target, after_update, after_command}
use kyc_agent_nordvik.Graph.Builder.Routes.{Dispatches}
use kyc_agent_nordvik.Graph.Builder.Lifecycle.{Writes}
use kyc_agent_nordvik.Graph.Builder.Lifecycle.Writes.{CommandKeeps}
use kyc_agent_nordvik.Graph.Trail.{
  Grows, Logged, Logged-Grows, gate_event, automatic_event, review_event, closing_of,
}
use kyc_agent_nordvik.Graph.Trail.Events.{some-inj, Closes}
use kyc_agent_nordvik.Graph.Trail.Tells.{Told, ConfigTold, Founded-Grows}

module _ {W : Type 0} (log : W → List AuditEvent) where
  none-ne-some : (o : Option Decision) (d : Decision) → o ≡ none → o ≡ some d → ⊥
  none-ne-some o d e f = cc

  -- A case that the orchestrator sends on has no decision.
  dispatched-Told :
      (s : KycState) (w : W) (c : Command)
      → s.decision ≡ none
      → Dispatches c
      → CommandKeeps c
      → Told log (apply_update s c.update) w (target c.goto)
  unfolding apply_update
  dispatched-Told s w c h g (_, k) d e =
      absurd (none-ne-some s.decision d h (subst (λ o. last_written s.decision o ≡ some d) k e))

  gated :
      (s : KycState) (o : DecisionOutcome) (g : Decision) (w : W)
      → Logged log (gate_event s g) w
      → Told log (apply_update s (gate_by o g).update) w (target (gate_by o g).goto)
  unfolding apply_update
  gated s approve g w h d e = subst (λ d. Logged log (gate_event s d) w) (some-inj g d e) h
  gated s reject g w h d e = subst (λ d. Logged log (gate_event s d) w) (some-inj g d e) h
  gated s escalate g w h d e = subst (λ d. Logged log (gate_event s d) w) (some-inj g d e) h

  announced :
      (s : KycState) (w w' : W) (u : Update)
      → Told log s w (at auto_decision)
      → Grows log w w'
      → Writes none none u
      → ((d : Decision) → s.decision ≡ some d → Logged log (automatic_event s d) w')
      → Told log (apply_update s u) w' (at finalize)
  unfolding apply_update
  announced s w w' u h g (_, k) t d e =
      let f = subst (λ o. last_written s.decision o ≡ some d) k e in
      inl (Logged-Grows log (gate_event s d) w w' (h d f) g, t d f)

  closed_off :
      (s : KycState) (w w' : W) (u : Update)
      → Told log s w (at finalize)
      → Grows log w w'
      → u.decision ≡ none
      → Closes log s s.decision u w'
      → Told log (apply_update s u) w' ended
  unfolding apply_update
  closed_off s w w' u h g k (q, t) d e =
      let f = subst (λ o. last_written s.decision o ≡ some d) k e in
      let same =
        ap nonempty
          (sym (append-nil s.degraded_reasons) ∙ ap (λ l. s.degraded_reasons ++ l) (sym q)) in
      (
        Founded-Grows log s d w w' (h d f) g,
        subst (λ b. Logged log (closing_of s.case_id d b) w') same (t d f),
      )

  answered :
      (s : KycState) (h : HumanDecision) (referral : Decision) (w w' : W) (u : Update)
      → s.decision ≡ some referral
      → Told log s w (at human_review)
      → Grows log w w'
      → u.decision ≡ some (human_decision s.decision h)
      → Logged log (review_event s h (human_decision s.decision h)) w'
      → Told log (apply_update s u) w' (at finalize)
  unfolding apply_update
  answered s h referral w w' u f t g k l d e =
      let e' =
        some-inj (human_decision s.decision h) d
          (subst (λ o. last_written s.decision o ≡ some d) k e) in
      inr (
        h,
        referral,
        sym e' ∙ ap (λ o. human_decision o h) f,
        Logged-Grows log _ w w' (t referral f) g,
        subst (λ d. Logged log (review_event s h d) w') e' l,
      )

  pub after_dispatch :
      (s : KycState) (r : Result Command) (w : W)
      → s.decision ≡ none
      → IfOk Dispatches r
      → IfOk CommandKeeps r
      → ConfigTold log (after_command s r w)
  unfolding after_command
  after_dispatch s (crash c) w h g k = λ d e. tt
  after_dispatch s (ok c) w h g k = dispatched-Told s w c h g k

  pub after_gate :
      (s : KycState) (r : Result Command) (w : W)
      → IfOkAt
          (λ c w.
            (c ≡ gate_command (gate_decision s)) × Logged log (gate_event s (gate_decision s)) w)
          (r, w)
      → ConfigTold log (after_command s r w)
  unfolding after_command
  after_gate s (crash c) w h = λ d e. tt
  after_gate s (ok c) w (e, l) =
      subst (λ c. Told log (apply_update s c.update) w (target c.goto)) (sym e)
        (gated s (gate_decision s).outcome (gate_decision s) w l)

  pub after_announcement :
      (s : KycState) (r : Result Update) (w w' : W)
      → Told log s w (at auto_decision)
      → Grows log w w'
      → IfOk (Writes none none) r
      → IfOkAt
          (λ _ w. (d : Decision) → s.decision ≡ some d → Logged log (automatic_event s d) w)
          (r, w')
      → ConfigTold log (after_update s (at finalize) r w')
  unfolding after_update
  after_announcement s (crash c) w w' h g k t = λ d e. tt
  after_announcement s (ok u) w w' h g k t = announced s w w' u h g k t

  pub after_closing :
      (s : KycState) (r : Result Update) (w w' : W)
      → Told log s w (at finalize)
      → Grows log w w'
      → IfOk (Writes (some completed) none) r
      → IfOkAt (Closes log s s.decision) (r, w')
      → ConfigTold log (after_update s ended r w')
  unfolding after_update
  after_closing s (crash c) w w' h g k t = λ d e. tt
  after_closing s (ok u) w w' h g k t = closed_off s w w' u h g k.1 t

  pub after_answer :
      (s : KycState) (a : HumanDecision) (r : Result Update) (w w' : W)
      → ((d : Decision) × (s.decision ≡ some d))
      → Told log s w (at human_review)
      → Grows log w w'
      → IfOk (Writes none (some (human_decision s.decision a))) r
      → IfOkAt (λ _ w. Logged log (review_event s a (human_decision s.decision a)) w) (r, w')
      → ConfigTold log (after_update s (at finalize) r w')
  unfolding after_update
  after_answer s a (crash c) w w' f h g k t = λ d e. tt
  after_answer s a (ok u) w w' f h g k t = answered s a f.0 w w' u f.1 h g k.1 t
