-- ===== src/Graph/Builder/Approval.antt =====
-- What an automatic approval means, and who decides, on every way through graph/builder.py.
use kyc_agent_nordvik.Prelude.{
  ◌≡◌, ◌≢◌, sym, ap, ◌∙◌, subst, inl, inr, Bool, true, false, none, some, [], any, is_some, String,
  ◌≤◌, Bool-cases, eq-nil_of_nonempty,
}
use kyc_agent_nordvik.Rules.Risk.{is_critical_mismatch, is_expired, limit_for}
use kyc_agent_nordvik.Rules.Risk.Gate.{decide_gate-approve_iff}
use kyc_agent_nordvik.Rules.Risk.Triggers.{evaluate_risk_rules-eq-nil_iff}
use kyc_agent_nordvik.Schemas.Case.{KycPackage}
use kyc_agent_nordvik.Schemas.Decisions.{
  Decision, ValidationReport, RiskAssessment, approve, escalate, system, human,
}
use kyc_agent_nordvik.Graph.State.{KycState, is_degraded}
use kyc_agent_nordvik.Graph.Context.{PipelineContext}
use kyc_agent_nordvik.Graph.Confidence.{has_error}
use kyc_agent_nordvik.Graph.Nodes.Base.{
  intake, router, orchestrator, extract_document, validator, risk_scorer, decision_gate,
  auto_decision, human_review, finalize, handle_error,
}
use kyc_agent_nordvik.Graph.Nodes.Score.{risk_thresholds, flags_of, confidence_of, unavailable_of}
use kyc_agent_nordvik.Graph.Nodes.Decide.{gate_decision, triggers_of}
use kyc_agent_nordvik.Graph.Builder.{Pc, at, fan, waiting, ended, crashed, Config, Reach}
use kyc_agent_nordvik.Graph.Builder.Invariant.{
  Decided, PcInv, ErrorsDegrade, IsComplete, IsAssessed, Entry, Settled, Settled-Decided,
}
use kyc_agent_nordvik.Graph.Builder.Safety.{submitted, submitted-Inv, Reach-Inv}

not_both : ◌≡◌ {A = Bool} true false → ⊥
not_both e = cc

outcome_eq : {d g : Decision} → some d ≡ some g → d.outcome ≡ approve → g.outcome ≡ approve
outcome_eq e a = cc

not_system : {d h : Decision} → some d ≡ some h → h.decided_by ≡ human → d.decided_by ≡ system → ⊥
not_system e a b = cc

all_read :
    (s : KycState)
    → ErrorsDegrade s.extractions s.degraded_reasons
    → is_degraded s ≡ false
    → any has_error s.extractions ≡ false
all_read s h e = elim (Bool-cases (any has_error s.extractions)) [
  | inl failed ↦ absurd (not_both (sym (h failed) ∙ e))
  | inr fine ↦ fine
]

module _ {W : Type 0} (ctx : PipelineContext W) where
  -- All that stands behind an approval without a human.
  pub record IsCleared (s : KycState) : Type 0 where
    pub complete : IsComplete s.kyc_package s.classified_documents
    pub not_degraded : s.degraded_reasons ≡ []
    pub all_read : any has_error s.extractions ≡ false
    pub report : ValidationReport
    pub validated : s.validation ≡ some report
    pub none_expired : any is_expired report.rule_flags ≡ false
    pub none_mismatched : any is_critical_mismatch report.rule_flags ≡ false
    pub confident : ctx.settings.confidence_threshold ≤ report.overall_confidence
    pub within_limit :
        s.kyc_package.applicant.expected_monthly_volume_eur
        ≤ limit_for s.kyc_package.customer_type (risk_thresholds ctx.settings)
    pub risk : RiskAssessment
    pub assessed : s.risk ≡ some risk
    pub none_sanctioned : risk.sanctions_hits ≡ []
    pub none_exposed : risk.pep_hits ≡ []

  contradiction : (s : KycState) (d : Decision) → s.decision ≡ none → s.decision ≡ some d → ⊥
  contradiction s d n e = cc

  Decided-of :
      (s : KycState) (pc : Pc) (d : Decision) → PcInv ctx s pc → s.decision ≡ some d → Decided ctx s
  Decided-of s (at intake) d h e = absurd (contradiction s d h.0 e)
  Decided-of s (at router) d h e = absurd (contradiction s d h.0 e)
  Decided-of s (at orchestrator) d h e = absurd (contradiction s d h.0 e)
  Decided-of s (at extract_document) d h e = absurd h
  Decided-of s (at validator) d h e = absurd (contradiction s d h.0.0 e)
  Decided-of s (at risk_scorer) d h e = absurd (contradiction s d h.0.0 e)
  Decided-of s (at handle_error) d h e = absurd (contradiction s d h.0.0 e)
  Decided-of s (at decision_gate) d h e = absurd (contradiction s d h.0 e)
  Decided-of s (at auto_decision) d h e = (h.0, inl h.1)
  Decided-of s (at human_review) d h e = (h.0, inl h.1)
  Decided-of s (at finalize) d h e = Settled-Decided ctx s h
  Decided-of s (fan slots) d h e = absurd (contradiction s d h.0.0 e)
  Decided-of s (waiting values) d h e = (h.0, inl h.1)
  Decided-of s ended d h e = Settled-Decided ctx s h
  Decided-of s (crashed c) d (inl n) e = absurd (contradiction s d n e)
  Decided-of s (crashed c) d (inr h) e = h

  -- A clean risk assessment, from the triggers that the gate saw.
  assessed_clean :
      (s : KycState)
      → (degraded : s.degraded_reasons ≡ []) → any has_error s.extractions ≡ false
      → IsComplete s.kyc_package s.classified_documents
      → IsAssessed ctx s.kyc_package s.validation s.risk
      → any is_expired (flags_of s.validation) ≡ false
      → triggers_of s.risk ≡ []
      → IsCleared s
  assessed_clean s degraded read c a expired clean =
      let fired = sym a.triggers ∙ sym (ap triggers_of a.assessed) ∙ clean in
      let (no_hits, no_pep, no_ubo, available, volume, confidence, mismatch) =
        (evaluate_risk_rules-eq-nil_iff ctx.python s.kyc_package.customer_type
            s.kyc_package.applicant.expected_monthly_volume_eur (confidence_of s.validation)
            (flags_of s.validation) a.result.sanctions_hits a.result.pep_hits a.result.ubo_hits
            (unavailable_of a.result) (risk_thresholds ctx.settings)).0
          fired in
      record {
        complete = c;
        not_degraded = degraded;
        all_read = read;
        report = a.report;
        validated = a.validated;
        none_expired = subst (λ v. any is_expired (flags_of v) ≡ false) a.validated expired;
        none_mismatched =
            subst (λ v. any is_critical_mismatch (flags_of v) ≡ false) a.validated mismatch;
        confident =
            subst (λ v. ctx.settings.confidence_threshold ≤ confidence_of v) a.validated confidence;
        within_limit = volume;
        risk = a.risk;
        assessed = a.assessed;
        none_sanctioned = a.sanctions_shown ∙ no_hits;
        none_exposed = a.pep_shown ∙ cc (no_pep, no_ubo);
      }

  IsCleared-of : (s : KycState) → Entry ctx s → (gate_decision s).outcome ≡ approve → IsCleared s
  IsCleared-of s h e =
      let (c, expired, clean, fine) =
        (decide_gate-approve_iff s.completeness_flag (flags_of s.validation) (triggers_of s.risk)
            (is_degraded s)).0
          e in
      elim h.1 [
        | inl degraded ↦ absurd (not_both (sym degraded ∙ fine))
        | inr (inl incomplete) ↦ absurd (not_both (sym incomplete ∙ ap is_some c))
        | inr (inr (k, a)) ↦
            assessed_clean s (eq-nil_of_nonempty s.degraded_reasons fine) (all_read s h.0 fine) k a
              expired clean
      ]

  -- If a case that was submitted holds an approval by the system, then every required document
  -- was recognised, the case is not degraded, every extraction was read, the report has no expiry
  -- and no critical mismatch and enough confidence, the volume is within its limit, and the risk
  -- assessment holds no hit of a registry.
  pub auto_approval-IsCleared :
      (case_id : String) (package' : KycPackage) (w : W) (c : Config W) (d : Decision)
      → Reach ctx (submitted ctx case_id package' w) c
      → c.state.decision ≡ some d
      → d.outcome ≡ approve
      → d.decided_by ≡ system
      → IsCleared c.state
  auto_approval-IsCleared case_id package' w c d r e a b =
      let (entry, who) =
        Decided-of c.state c.pc d (Reach-Inv ctx (submitted-Inv ctx case_id package' w) r) e in
      elim who [
        | inl gate ↦ IsCleared-of c.state entry (outcome_eq (sym e ∙ gate) a)
        | inr (h, f, by_human, _) ↦ absurd (not_system (sym e ∙ f) by_human b)
      ]

  Settled-of :
      (case_id : String) (package' : KycPackage) (w : W) (c : Config W)
      → Reach ctx (submitted ctx case_id package' w) c
      → c.pc ≡ ended
      → Settled ctx c.state
  Settled-of case_id package' w c r e =
      subst (PcInv ctx c.state) e (Reach-Inv ctx (submitted-Inv ctx case_id package' w) r)

  -- A submitted case that has ended holds a decision, and it is to approve or to reject.
  pub ended-decision :
      (case_id : String) (package' : KycPackage) (w : W) (c : Config W)
      → Reach ctx (submitted ctx case_id package' w) c
      → c.pc ≡ ended
      → (d : Decision) × (c.state.decision ≡ some d) × (d.outcome ≢ escalate)
  ended-decision case_id package' w c r e = elim (Settled-of case_id package' w c r e).1 [
    | inl (gate, final) ↦ (gate_decision c.state, gate, final)
    | inr (d, f, _, final) ↦ (d, f, final)
  ]

  -- If the state of a submitted case that has ended calls for an escalation (a trigger fired, or
  -- the case is degraded), then its decision was taken by a human.
  pub ended-escalated :
      (case_id : String) (package' : KycPackage) (w : W) (c : Config W)
      → Reach ctx (submitted ctx case_id package' w) c
      → c.pc ≡ ended
      → (gate_decision c.state).outcome ≡ escalate
      → (d : Decision) × (c.state.decision ≡ some d) × (d.decided_by ≡ human)
  ended-escalated case_id package' w c r e x = elim (Settled-of case_id package' w c r e).1 [
    | inl (gate, final) ↦ absurd (final x)
    | inr (d, f, by_human, _) ↦ (d, f, by_human)
  ]
