-- ===== src/Graph/Trail/Events.antt =====
-- The events that the nodes behind the gate leave in the trail.
use kyc_agent_nordvik.Prelude.{◌≡◌, refl, subst, String, Option, none, some, List, []}
use kyc_agent_nordvik.Effects.{Result, ok, crash, ◌>>=◌, await}
use kyc_agent_nordvik.Effects.Tracks.{Leaves, IfOkAt, bind-Leaves}
use kyc_agent_nordvik.Audit.Sink.{AuditEvent, Payload}
use kyc_agent_nordvik.Schemas.Decisions.{Decision, HumanDecision}
use kyc_agent_nordvik.Graph.State.{KycState, Update}
use kyc_agent_nordvik.Graph.Context.{PipelineContext}
use kyc_agent_nordvik.Graph.Nodes.Base.{emit}
use kyc_agent_nordvik.Graph.Nodes.Decide.{
  gate_decision, gate_command, run_decision_gate, announce, run_auto_decision, human_decision,
  run_human_review, close, run_finalize,
}
use kyc_agent_nordvik.Graph.Trail.{
  Records, Logged, gate_event, automatic_event, review_event, closing_event,
}

at_world : {W A : Type 0} (P : W → Type 0) (r : Result A) (w : W) → P w → IfOkAt (λ _ w. P w) (r, w)
at_world P (ok a) w h = h
at_world P (crash c) w h = tt

pub some-inj : {A : Type 0} (a b : A) → ◌≡◌ {A = Option A} (some a) (some b) → a ≡ b
some-inj a b e = cc

-- The update leaves the reasons of a degradation as they are, and the closing event is in the trail.
abbrev pub Closes :
    {W : Type 0} → (W → List AuditEvent) → KycState → Option Decision → Update → W → Type 0
Closes log s o u w =
    (u.degraded_reasons ≡ []) × ((d : Decision) → o ≡ some d → Logged log (closing_event s d) w)

module _ {W : Type 0} (log : W → List AuditEvent) (ctx : PipelineContext W)
    (records : Records log ctx) where
  emit-Leaves :
      (case_id node event_type : String) (payload : Payload)
      → Leaves
          (λ _ w.
            Logged log
              (λ ts. record {
                case_id = case_id;
                ts = ts;
                node = node;
                event_type = event_type;
                payload = payload;
              })
              w)
          (emit ctx case_id node event_type payload)
  unfolding emit await
  emit-Leaves case_id node event_type payload = record {
    at = λ w. at_world (Logged log _) _ _ (ctx.now w, log w, [], records.appends _ w);
  }

  module _ (s : KycState) where
    pub decision_gate-Leaves :
        Leaves
          (λ c w.
            (c ≡ gate_command (gate_decision s)) × Logged log (gate_event s (gate_decision s)) w)
          (run_decision_gate ctx s)
    unfolding run_decision_gate ◌>>=◌
    decision_gate-Leaves = bind-Leaves _ _ (emit-Leaves _ _ _ _) (λ _ w h. (refl, h))

    announce-Leaves :
        (o : Option Decision)
        → Leaves
            (λ _ w. (d : Decision) → o ≡ some d → Logged log (automatic_event s d) w)
            (announce ctx s o)
    unfolding announce ◌>>=◌
    announce-Leaves none = record { at = λ w. tt }
    announce-Leaves (some d) =
        bind-Leaves _ _ (emit-Leaves _ _ _ _)
          (λ _ w h d' e. subst (λ d. Logged log (automatic_event s d) w) (some-inj d d' e) h)

    pub auto_decision-Leaves :
        Leaves
          (λ _ w. (d : Decision) → s.decision ≡ some d → Logged log (automatic_event s d) w)
          (run_auto_decision ctx s)
    unfolding run_auto_decision
    auto_decision-Leaves = announce-Leaves s.decision

    pub human_review-Leaves :
        (h : HumanDecision)
        → Leaves
            (λ _ w. Logged log (review_event s h (human_decision s.decision h)) w)
            (run_human_review ctx s h)
    unfolding run_human_review ◌>>=◌
    human_review-Leaves h = bind-Leaves _ _ (emit-Leaves _ _ _ _) (λ _ w k. k)

    close-Leaves : (o : Option Decision) → Leaves (Closes log s o) (close ctx s o)
    unfolding close ◌>>=◌
    close-Leaves none = record { at = λ w. tt }
    close-Leaves (some d) =
        bind-Leaves _ _ (emit-Leaves _ _ _ _) (λ _ w h.
          (refl, λ d' e. subst (λ d. Logged log (closing_event s d) w) (some-inj d d' e) h))

    pub finalize-Leaves : Leaves (Closes log s s.decision) (run_finalize ctx s)
    unfolding run_finalize
    finalize-Leaves = close-Leaves s.decision
