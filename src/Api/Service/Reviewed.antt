-- ===== src/Api/Service/Reviewed.antt =====
-- What a reviewer and a poller get from api/service.py.
use kyc_agent_nordvik.Prelude.{
  ◌≡◌, refl, ap, subst, ◌↔◌, String, Bool, true, Option, none, some, [], ◌∷◌,
}
use kyc_agent_nordvik.Effects.{◌>>=◌}
use kyc_agent_nordvik.Audit.Sink.{IsQuiet}
use kyc_agent_nordvik.Schemas.Case.{KycPackage, completed}
use kyc_agent_nordvik.Schemas.Decisions.{
  Decision, HumanDecision, escalate, approve, reject, approved, rejected, ReviewOutcome, human,
}
use kyc_agent_nordvik.Graph.State.{KycState, apply_update}
use kyc_agent_nordvik.Graph.Context.{PipelineContext}
use kyc_agent_nordvik.Graph.Nodes.Base.{emit, finalize, validator, human_review}
use kyc_agent_nordvik.Graph.Nodes.Decide.{
  decided, human_decision, outcome_of, review_loop, run_human_review, run_finalize, close,
}
use kyc_agent_nordvik.Graph.Nodes.Decide.Reviews.{model_dump, model_validate-model_dump}
use kyc_agent_nordvik.Graph.Builder.{
  Pc, at, fan, waiting, ended, crashed, Config, run_node, resume, reviewed, after_update, Reach,
}
use kyc_agent_nordvik.Graph.Builder.Safety.{submitted}
use kyc_agent_nordvik.Graph.Builder.Lifecycle.{shown, is_final, ShowsAt}
use kyc_agent_nordvik.Graph.Builder.Lifecycle.Moves.{not_final}
use kyc_agent_nordvik.Graph.Builder.Lifecycle.Refines.{submitted-ShowsAt}
use kyc_agent_nordvik.Api.Service.{
  Reply, body, not_awaiting, CaseStatusResponse, Tasks, answer_at, run_on, response_of, status,
  resume_run, review, is_finished,
}

module _ {W : Type 0} (ctx : PipelineContext W) where
  -- The case is closed with this decision.
  pub record IsClosed (d : Decision) (c : Config W) : Type 0 where
    pub at_end : c.pc ≡ ended
    pub status : c.state.status ≡ completed
    pub decision : c.state.decision ≡ some d

  close-IsClosed :
      (s : KycState) (w : W) (d : Decision) (o : Option Decision)
      → IsQuiet ctx.audit
      → s.decision ≡ some d
      → o ≡ some d
      → IsClosed d (let (r, w') = close ctx s o w in after_update s ended r w')
  unfolding close emit ◌>>=◌ after_update apply_update
  close-IsClosed s w d none quiet e f = cc
  close-IsClosed s w d (some d') quiet e f =
      rw (quiet _ w) (record { at_end = refl; status = refl; decision = e })

  finalize-IsClosed :
      (s : KycState) (w : W) (d : Decision)
      → IsQuiet ctx.audit
      → s.decision ≡ some d
      → IsClosed d (run_node ctx finalize s w)
  unfolding run_node run_finalize
  finalize-IsClosed s w d quiet e = close-IsClosed s w d s.decision quiet e e

  decided-IsClosed :
      (s : KycState) (w : W) (h : HumanDecision)
      → IsQuiet ctx.audit
      → let c = reviewed ctx s w [] (decided h) in
        IsClosed (human_decision s.decision h) (run_on ctx c.state c.world c.pc)
  unfolding reviewed run_human_review emit ◌>>=◌ after_update apply_update
  decided-IsClosed s w h quiet = rw (quiet _ w) (finalize-IsClosed _ _ _ quiet refl)

  review_loop-model_dump :
      (s : KycState) (h : HumanDecision)
      → review_loop ctx.python.int_str s none (model_dump h ∷ []) ≡ decided h
  unfolding review_loop
  review_loop-model_dump s h = rw (model_validate-model_dump h, review_loop) refl

  resume_run-IsClosed :
      (c : Config W) (h : HumanDecision)
      → IsQuiet ctx.audit
      → IsClosed (human_decision c.state.decision h) (resume_run ctx c [] h)
  unfolding resume_run resume
  resume_run-IsClosed c h quiet =
      rw (review_loop-model_dump c.state h) (decided-IsClosed c.state c.world h quiet)

  -- The reply tells of a closed case, which the checkpointer keeps.
  pub record IsAnswered (case_id : String) (d : Decision)
      (out : Reply CaseStatusResponse × Option (Config W)) : Type 0 where
    pub after : Config W
    pub IsClosed_after : IsClosed d after
    pub reply : out ≡ (body (response_of ctx case_id after), some after)

  -- What a review of an escalated case is to decide: the reviewer's outcome, taken by a human, with
  -- the reason codes of the escalation.
  pub record IsReviewersDecision (referral : Decision) (h : HumanDecision) (d : Decision)
      : Type 0 where
    pub approves : h.outcome ≡ approved → d.outcome ≡ approve
    pub rejects : h.outcome ≡ rejected → d.outcome ≡ reject
    pub by_human : d.decided_by ≡ human
    pub codes : d.reason_codes ≡ referral.reason_codes
    pub signed : d.reviewer ≡ some h.reviewer

  outcome_of-approves : (o : ReviewOutcome) → o ≡ approved → outcome_of o ≡ approve
  outcome_of-approves approved e = refl
  outcome_of-approves rejected e = cc

  outcome_of-rejects : (o : ReviewOutcome) → o ≡ rejected → outcome_of o ≡ reject
  outcome_of-rejects approved e = cc
  outcome_of-rejects rejected e = refl

  human_decision-IsReviewersDecision :
      (referral : Decision) (h : HumanDecision)
      → IsReviewersDecision referral h (human_decision (some referral) h)
  human_decision-IsReviewersDecision referral h = record {
    approves = outcome_of-approves h.outcome;
    rejects = outcome_of-rejects h.outcome;
    by_human = refl;
    codes = refl;
    signed = refl;
  }

  answer_closed :
      (tasks : Tasks) (case_id : String) (c : Config W) (pc : Pc)
      → pc ≡ ended
      → answer_at ctx tasks case_id c pc ≡ body (response_of ctx case_id c)
  unfolding status
  answer_closed tasks case_id c (at n) e = cc
  answer_closed tasks case_id c (fan slots) e = cc
  answer_closed tasks case_id c (waiting values) e = cc
  answer_closed tasks case_id c ended e = refl
  answer_closed tasks case_id c (crashed x) e = cc

  waiting_decision :
      (s : KycState) (pc : Pc)
      → pc ≡ waiting []
      → ShowsAt (shown s) pc
      → (d : Decision) × (s.decision ≡ some d) × (d.outcome ≡ escalate)
  waiting_decision s pc e h =
      let (d, f, g) = subst (ShowsAt (shown s)) e h in (d, ap (λ v. v.decision) f, g)

  review-IsAnswered :
      (tasks : Tasks) (case_id : String) (c : Config W) (h : HumanDecision)
      → IsQuiet ctx.audit
      → c.pc ≡ waiting []
      → IsAnswered case_id (human_decision c.state.decision h) (review ctx tasks case_id (some c) h)
  unfolding review
  review-IsAnswered tasks case_id c h quiet e =
      let c' = resume_run ctx c [] h in
      let closed = resume_run-IsClosed c h quiet in
      rw e (record {
        after = c';
        IsClosed_after = closed;
        reply = rw (answer_closed tasks case_id c' c'.pc closed.at_end) refl;
      })

  -- If the audit sink never raises, a review of a submitted case that waits for one is answered by
  -- the closed case: its decision approves if the reviewer approved and rejects if the reviewer
  -- rejected, was taken by a human, names the reviewer, and has the reason codes of the escalation.
  pub review-closes :
      (case_id : String) (package' : KycPackage) (w : W) (c : Config W) (tasks : Tasks)
      (h : HumanDecision)
      → IsQuiet ctx.audit
      → Reach ctx (submitted ctx case_id package' w) c
      → c.pc ≡ waiting []
      → (d : Decision) × (c.state.decision ≡ some d)
        × (d.outcome ≡ escalate)
        × ((d' : Decision) × IsReviewersDecision d h d'
            × IsAnswered case_id d' (review ctx tasks case_id (some c) h))
  review-closes case_id package' w c tasks h quiet r e =
      let (d, f, g) =
        waiting_decision c.state c.pc e (submitted-ShowsAt ctx case_id package' w c r) in
      (
        d,
        f,
        g,
        (
          human_decision (some d) h,
          human_decision-IsReviewersDecision d h,
          subst (λ o. IsAnswered case_id (human_decision o h) (review ctx tasks case_id (some c) h))
              f (review-IsAnswered tasks case_id c h quiet e),
        ),
      )

  review_at-ended :
      (tasks : Tasks) (case_id : String) (c : Config W) (h : HumanDecision)
      → c.pc ≡ ended
      → review ctx tasks case_id (some c) h ≡ (not_awaiting, some c)
  unfolding review
  review_at-ended tasks case_id c h e = rw e refl

  -- If the audit sink never raises, a second review of a case that waited for one is refused with
  -- 409 and leaves the case as the first one closed it.
  pub review_twice :
      (tasks : Tasks) (case_id : String) (c : Config W) (h h' : HumanDecision)
      → IsQuiet ctx.audit
      → c.pc ≡ waiting []
      → (closed : Config W) × ((review ctx tasks case_id (some c) h).1 ≡ some closed)
        × (closed.pc ≡ ended)
        × (review ctx tasks case_id (some closed) h' ≡ (not_awaiting, some closed))
  review_twice tasks case_id c h h' quiet e =
      let answered = review-IsAnswered tasks case_id c h quiet e in
      let at_end = answered.IsClosed_after.at_end in
      (
        answered.after,
        ap (λ o. o.1) answered.reply,
        at_end,
        review_at-ended tasks case_id answered.after h' at_end,
      )

  finished_iff :
      (s : KycState) (pc : Pc) → ShowsAt (shown s) pc → (is_final s.status ≡ true) ↔ (pc ≡ ended)
  finished_iff s (at n) h = (λ e. cc (not_final (shown s) n h, e), λ e. cc)
  finished_iff s (fan slots) h = (λ e. cc (not_final (shown s) validator h.0, e), λ e. cc)
  finished_iff s (waiting values) h = (λ e. cc (not_final (shown s) human_review h, e), λ e. cc)
  finished_iff s ended (d, e, _) = (λ f. refl, λ f. rw (ap (λ v. v.status) e) refl)
  finished_iff s (crashed x) h = (λ e. cc (h, e), λ e. cc)

  body-inj : (a b : Bool) → ◌≡◌ {A = Reply Bool} (body a) (body b) → a ≡ b
  body-inj a b e = cc

  -- For a submitted case that has a checkpoint, `is_finished` answers `True` exactly when the graph
  -- has ended. It is not so for a case that an exception has stopped.
  pub is_finished_iff :
      (case_id : String) (package' : KycPackage) (w : W) (c : Config W) (tasks : Tasks)
      → Reach ctx (submitted ctx case_id package' w) c
      → (is_finished ctx tasks case_id (some c) ≡ body true) ↔ (c.pc ≡ ended)
  unfolding status
  is_finished_iff case_id package' w c tasks r =
      let h = finished_iff c.state c.pc (submitted-ShowsAt ctx case_id package' w c r) in
      (λ e. h.0 (body-inj (is_final c.state.status) true e), λ e. ap body (h.1 e))
