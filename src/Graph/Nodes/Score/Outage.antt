-- ===== src/Graph/Nodes/Score/Outage.antt =====
-- A registry that does not answer, in `_screen` and `risk_scorer` of
-- graph/nodes.py.
use kyc_agent_nordvik.Prelude.{
  ◌≡◌, refl, ◌∙◌, ap, ◌⊎◌, inl, inr, String, concat, Bool, true, false, ◌&&◌, Option, none, some,
  List, [], ◌∷◌, ◌++◌, arith, nonempty, nonempty-append, ℕ, zero, suc, replicate, if◌then◌else◌,
}
use kyc_agent_nordvik.Effects.{Call, Exception, raised}
use kyc_agent_nordvik.Effects.Ensures.{
  Ensures, IfOk, skip-IfOk, bind-IfOk, pure-IfOk, Returns, Returns-of,
}
use kyc_agent_nordvik.Llm.Base.{PipelineStep}
use kyc_agent_nordvik.Llm.Resilience.{Attempted, succeeded, exhausted, run_resilient}
use kyc_agent_nordvik.Llm.Resilience.Budget.{
  first_success, result_of, run_resilient-eq-first_success,
}
use kyc_agent_nordvik.Rules.Risk.Triggers.{fired, fired-evaluate_risk_rules}
use kyc_agent_nordvik.Schemas.Ids
use kyc_agent_nordvik.Schemas.Decisions.{RegistryHit, sanctions, pep, registry_value}
use kyc_agent_nordvik.Graph.State.{KycState, Update}
use kyc_agent_nordvik.Graph.Context.{PipelineContext, RegistryClient}
use kyc_agent_nordvik.Graph.Screening.{screen, screen_from, screening_names, ScreeningNames}
use kyc_agent_nordvik.Graph.Screening.Names.{persons-nonempty}
use kyc_agent_nordvik.Graph.Nodes.Base.{resilient}
use kyc_agent_nordvik.Audit.Sink.{IsQuiet}
use kyc_agent_nordvik.Graph.Nodes.Score.Answers.{risk_scorer-Returns}
use kyc_agent_nordvik.Graph.Nodes.Score.{
  ScreeningResult, screen_all, screen_owners, screened_owners, triggered_by, confidence_of,
  flags_of, unavailable_of, risk_thresholds, assess, run_risk_scorer,
}

-- Every search in this registry fails, however often it is tried.
abbrev pub IsDown : {W : Type 0} → RegistryClient W → Type 0
IsDown {W} client =
    (name : String) (w : W) → (exc : Exception) × ((client.search name w).0 ≡ raised exc)

abbrev IsExhausted : {A : Type 0} → Attempted A → Type 0
IsExhausted (succeeded a errs) = ⊥
IsExhausted (exhausted step errs) = Unit

module _ {W A : Type 0} (call : Call W A)
    (down : (w : W) → (exc : Exception) × ((call w).0 ≡ raised exc)) where
  none_succeeds : (n : ℕ) (w : W) → (first_success (replicate n call ++ []) w).0 ≡ none
  unfolding first_success
  none_succeeds zero w = refl
  none_succeeds (suc n) w = rw ((down w).1, first_success) (none_succeeds n (call w).1)

  IsExhausted-of : (r : Attempted A) (w : W) → (result_of (r, w)).0 ≡ none → IsExhausted r
  IsExhausted-of (succeeded a errs) w e = cc
  IsExhausted-of (exhausted step errs) w e = tt

  pub resilient-IsExhausted :
      (ctx : PipelineContext W) (step : PipelineStep) (node : String)
      → Ensures (resilient ctx step node call none) (IfOk IsExhausted)
  unfolding resilient
  resilient-IsExhausted ctx step node = record {
    at = λ w.
        let n = ctx.settings.max_step_retries in
        IsExhausted-of (run_resilient step node call none n w).0
          (run_resilient step node call none n w).1
          (ap (λ (p : Option A × W). p.0) (run_resilient-eq-first_success step node call none n w)
            ∙ none_succeeds (suc n) w);
  }

module _ {W : Type 0} (ctx : PipelineContext W) (client : RegistryClient W) (case_id : String)
    (down : IsDown client) where
  after_search :
      (hits : List RegistryHit) (name : String) (names : List String)
      → Ensures (screen_from ctx client case_id hits (name ∷ names)) (IfOk (λ r. r.1 ≡ false))
  unfolding screen_from
  after_search hits name names =
      bind-IfOk _ _
        (resilient-IsExhausted (client.search name) (down name) ctx PipelineStep.risk
          (concat ("risk:" ∷ registry_value client.registry ∷ [])))
        (elim [
          | succeeded found errs ↦ λ x. absurd x
          | exhausted step errs ↦ λ x. skip-IfOk _ _ (λ _. pure-IfOk _ refl)
        ])

  pub screen-false :
      (names : List String)
      → nonempty names ≡ true
      → Ensures (screen ctx client case_id names) (IfOk (λ r. r.1 ≡ false))
  unfolding screen
  screen-false [] h = cc
  screen-false (name ∷ names) h = after_search [] name names

-- A risk assessment, if the update has one, says that a registry was unavailable.
abbrev pub ReportsOutage : Update → Type 0
ReportsOutage u = elim u.risk [
  | none ↦ ⊥
  | some r ↦ fired Ids.registry_unavailable r.triggered_rules ≡ true
]

missing :
    (a b : Bool)
    → (a && b) ≡ false
    → nonempty ((if a then [] else sanctions ∷ []) ++ (if b then [] else pep ∷ [])) ≡ true
missing true true h = cc
missing true false h = refl
missing false b h = refl

module _ {W : Type 0} (ctx : PipelineContext W) (s : KycState) where
  out :
      (r : ScreeningResult)
      → (r.sanctions_ok && r.pep_ok) ≡ false
      → fired Ids.registry_unavailable (triggered_by ctx s.kyc_package s.validation r) ≡ true
  out r h =
      fired-evaluate_risk_rules ctx.python s.kyc_package.customer_type
        s.kyc_package.applicant.expected_monthly_volume_eur (confidence_of s.validation)
        (flags_of s.validation) r.sanctions_hits r.pep_hits r.ubo_hits (unavailable_of r)
        (risk_thresholds ctx.settings) Ids.registry_unavailable
      ∙ missing r.sanctions_ok r.pep_ok h

  assess-ReportsOutage :
      (r : ScreeningResult)
      → (r.sanctions_ok && r.pep_ok) ≡ false
      → Ensures (assess ctx s r) (IfOk ReportsOutage)
  unfolding assess
  assess-ReportsOutage r h =
      skip-IfOk _ _ (λ narration. skip-IfOk _ _ (λ _. skip-IfOk _ _ (λ _. pure-IfOk _ (out r h))))

  screened_owners-keep :
      (names : List String) (r : ScreeningResult)
      → (r.sanctions_ok && r.pep_ok) ≡ false
      → Ensures (screened_owners ctx s names r) (IfOk (λ q. (q.sanctions_ok && q.pep_ok) ≡ false))
  unfolding screened_owners
  screened_owners-keep [] r h = pure-IfOk r h
  screened_owners-keep (name ∷ names) r h =
      skip-IfOk _ _ (λ found. skip-IfOk _ _ (λ pep_found. pure-IfOk _ (ground (arith, h))))

  owners-keep :
      (names : ScreeningNames) (r : ScreeningResult)
      → (r.sanctions_ok && r.pep_ok) ≡ false
      → Ensures (screen_owners ctx s names r) (IfOk (λ q. (q.sanctions_ok && q.pep_ok) ≡ false))
  unfolding screen_owners
  owners-keep names r h = screened_owners-keep names.owner_names r h

  screen_all-misses :
      IsDown ctx.sanctions ⊎ IsDown ctx.pep
      → (names : ScreeningNames) → nonempty names.persons ≡ true
      → Ensures (screen_all ctx s names) (IfOk (λ q. (q.sanctions_ok && q.pep_ok) ≡ false))
  unfolding screen_all
  screen_all-misses (inl down) names h =
      bind-IfOk _ _
        (screen-false ctx ctx.sanctions s.case_id down (names.persons ++ names.companies)
          (nonempty-append names.persons names.companies ∙ ground (arith, h)))
        (λ found out. skip-IfOk _ _ (λ pep_found. owners-keep names _ (ground (arith, out))))
  screen_all-misses (inr down) names h = skip-IfOk _ _ (λ found.
      bind-IfOk _ _ (screen-false ctx ctx.pep s.case_id down names.persons h)
        (λ pep_found out. owners-keep names _ (ground (arith, out))))

  -- If the sanctions registry is down, or the PEP registry is, and the audit sink never raises,
  -- then the risk scorer returns an assessment with the rule REGISTRY_UNAVAILABLE among its
  -- triggers, whatever else the outside world does.
  pub risk_scorer-ReportsOutage :
      IsQuiet ctx.audit
      → IsDown ctx.sanctions ⊎ IsDown ctx.pep
      → Ensures (run_risk_scorer ctx s) (Returns ReportsOutage)
  unfolding run_risk_scorer
  risk_scorer-ReportsOutage quiet down =
      Returns-of (run_risk_scorer ctx s) (risk_scorer-Returns ctx quiet s) (
        bind-IfOk _ _ (screen_all-misses down (screening_names s) (persons-nonempty s))
          (λ r h. assess-ReportsOutage r h))
