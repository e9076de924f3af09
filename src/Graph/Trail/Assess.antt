-- ===== src/Graph/Trail/Assess.antt =====
-- What the validator and the risk scorer of graph/nodes.py do to the audit trail.
use kyc_agent_nordvik.Prelude.{
  String, none, List, [], ◌∷◌, ◌++◌, get, inl, inr, Bool-cases, Option-cases,
}
use kyc_agent_nordvik.Effects.Tracks.{CallTracks, Tracks-pure, Tracks-fail, Tracks-bind}
use kyc_agent_nordvik.Audit.Sink.{AuditEvent}
use kyc_agent_nordvik.Llm.Resilience.{succeeded, exhausted}
use kyc_agent_nordvik.Rules.Validation.{Checked, done, raise}
use kyc_agent_nordvik.Rules.Validation.Run.{Findings}
use kyc_agent_nordvik.Schemas.Documents.{InputDocument}
use kyc_agent_nordvik.Schemas.Decisions.{ExtractionResult, RuleFlag, RegistryHit, ProcessingError}
use kyc_agent_nordvik.Graph.State.{KycState}
use kyc_agent_nordvik.Graph.Context.{PipelineContext, RegistryClient}
use kyc_agent_nordvik.Graph.Confidence.{has_error}
use kyc_agent_nordvik.Graph.Screening.{screen, screen_from, ScreeningNames}
use kyc_agent_nordvik.Graph.Nodes.Validate.{
  report_recovered, verify, ground_from, grounding, report_flags, Grounding, gave_up, grounded,
  validated, checked, run_validator,
}
use kyc_agent_nordvik.Graph.Nodes.Score.{
  ScreeningResult, screened_owners, screen_owners, screen_all, report_triggers, assess,
  run_risk_scorer,
}
use kyc_agent_nordvik.Graph.Trail.{Grows, Grows-IsPreorder, Keeps}
use kyc_agent_nordvik.Graph.Trail.Grows.{Grow, emit-Grow, resilient-Grow, bind-Grow, if-Grow}

module _ {W : Type 0} (log : W → List AuditEvent) (ctx : PipelineContext W)
    (keeps : Keeps log ctx) where
  ruleset assess_rules = (Tracks-pure, Tracks-fail, Tracks-bind, emit-Grow, Grows-IsPreorder)

  report_recovered-Grow :
      (s : KycState) (errs : List ProcessingError)
      → Grow log ctx keeps (report_recovered ctx s errs)
  unfolding report_recovered
  report_recovered-Grow s [] = search assess_rules
  report_recovered-Grow s (e ∷ errs) = search assess_rules

  verify-Grow :
      (s : KycState) (document : InputDocument) (e : ExtractionResult)
      → Grow log ctx keeps (verify ctx s document e)
  unfolding verify
  verify-Grow s document e =
      resilient-Grow log ctx keeps _ _ _ _ (keeps.services.verify_grounding _ _)
        (keeps.fallback.verify_grounding _ _)

  ground_from-Grow :
      (s : KycState) (docs : List (String × InputDocument)) (flags : List RuleFlag)
      (es : List ExtractionResult)
      → Grow log ctx keeps (ground_from ctx s docs flags es)
  unfolding ground_from
  ground_from-Grow s docs flags [] = search assess_rules
  ground_from-Grow s docs flags (e ∷ es) = elim (Bool-cases (has_error e)) [
    | inl failed ↦ rw (failed, ground_from) (ground_from-Grow s docs flags es)
    | inr fine ↦ elim (Option-cases (get e.document_id docs)) [
      | inl none_found ↦ rw (fine, none_found, ground_from) (Tracks-fail (Grows-IsPreorder log) _)
      | inr (document, found) ↦
          rw (fine, found, ground_from)
            (bind-Grow log ctx keeps _ _ (verify-Grow s document e) (elim [
              | exhausted step errs ↦ search assess_rules
              | succeeded more errs ↦
                  bind-Grow log ctx keeps _ _ (report_recovered-Grow s errs)
                    (λ _. ground_from-Grow s docs (flags ++ more) es)
            ]))
    ]
  ]

  grounding-Grow : (s : KycState) → Grow log ctx keeps (grounding ctx s)
  unfolding grounding
  grounding-Grow s =
      if-Grow log ctx keeps ctx.evaluator_enabled _ _ (ground_from-Grow s _ [] s.extractions)
        (Tracks-pure (Grows-IsPreorder log) _)

  report_flags-Grow :
      (s : KycState) (flags : List RuleFlag) → Grow log ctx keeps (report_flags ctx s flags)
  unfolding report_flags
  report_flags-Grow s [] = search assess_rules
  report_flags-Grow s (f ∷ flags) =
      bind-Grow log ctx keeps _ _ (emit-Grow log ctx keeps _ _ _ _) (λ _. report_flags-Grow s flags)

  validated-Grow :
      (s : KycState) (found : Findings) (g : Grounding)
      → Grow log ctx keeps (validated ctx s found g)
  unfolding validated
  validated-Grow s found (gave_up errs) = search assess_rules
  validated-Grow s found (grounded flags) = search (assess_rules, report_flags-Grow)

  checked-Grow :
      (s : KycState) (found : Checked Findings) → Grow log ctx keeps (checked ctx s found)
  unfolding checked
  checked-Grow s (raise e) = search assess_rules
  checked-Grow s (done found) = search (assess_rules, grounding-Grow, validated-Grow)

  pub validator-Grow : (s : KycState) → Grow log ctx keeps (run_validator ctx s)
  unfolding run_validator
  validator-Grow s = checked-Grow s _

  screen_from-Grow :
      (client : RegistryClient W) (case_id : String) (hits : List RegistryHit) (names : List String)
      → ((name : String) → CallTracks (Grows log) (client.search name))
      → Grow log ctx keeps (screen_from ctx client case_id hits names)
  unfolding screen_from
  screen_from-Grow client case_id hits [] h = search assess_rules
  screen_from-Grow client case_id hits (name ∷ names) h =
      bind-Grow log ctx keeps _ _ (resilient-Grow log ctx keeps _ _ _ none (h name) tt) (elim [
        | succeeded found errs ↦
            bind-Grow log ctx keeps _ _ (emit-Grow log ctx keeps _ _ _ _)
              (λ _. screen_from-Grow client case_id (hits ++ found) names h)
        | exhausted step errs ↦ search assess_rules
      ])

  screen-Grow :
      (client : RegistryClient W) (case_id : String) (names : List String)
      → ((name : String) → CallTracks (Grows log) (client.search name))
      → Grow log ctx keeps (screen ctx client case_id names)
  unfolding screen
  screen-Grow client case_id names h = screen_from-Grow client case_id [] names h

  screened_owners-Grow :
      (s : KycState) (names : List String) (r : ScreeningResult)
      → Grow log ctx keeps (screened_owners ctx s names r)
  unfolding screened_owners
  screened_owners-Grow s [] r = search assess_rules
  screened_owners-Grow s (name ∷ names) r =
      bind-Grow log ctx keeps _ _ (screen-Grow _ _ _ keeps.sanctions)
        (λ _. bind-Grow log ctx keeps _ _ (screen-Grow _ _ _ keeps.pep) (λ _. search assess_rules))

  screen_all-Grow :
      (s : KycState) (names : ScreeningNames) → Grow log ctx keeps (screen_all ctx s names)
  unfolding screen_all screen_owners
  screen_all-Grow s names = bind-Grow log ctx keeps _ _ (screen-Grow _ _ _ keeps.sanctions) (λ _.
      bind-Grow log ctx keeps _ _ (screen-Grow _ _ _ keeps.pep) (λ _. screened_owners-Grow s _ _))

  report_triggers-Grow :
      (s : KycState) (flags : List RuleFlag) → Grow log ctx keeps (report_triggers ctx s flags)
  unfolding report_triggers
  report_triggers-Grow s [] = search assess_rules
  report_triggers-Grow s (f ∷ flags) =
      bind-Grow log ctx keeps _ _ (emit-Grow log ctx keeps _ _ _ _)
        (λ _. report_triggers-Grow s flags)

  assess-Grow : (s : KycState) (r : ScreeningResult) → Grow log ctx keeps (assess ctx s r)
  unfolding assess
  assess-Grow s r =
      bind-Grow log ctx keeps _ _
        (resilient-Grow log ctx keeps _ _ _ _ (keeps.services.narrate _ _ _)
          (keeps.fallback.narrate _ _ _))
        (λ _. search (assess_rules, report_triggers-Grow))

  pub risk_scorer-Grow : (s : KycState) → Grow log ctx keeps (run_risk_scorer ctx s)
  unfolding run_risk_scorer
  risk_scorer-Grow s = bind-Grow log ctx keeps _ _ (screen_all-Grow s _) (λ r. assess-Grow s r)
