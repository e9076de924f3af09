-- ===== src/Graph/Nodes/Score/Answers.antt =====
-- The ends of `risk_scorer` of graph/nodes.py, where the audit sink never raises.
use kyc_agent_nordvik.Prelude.{String, List, [], ◌∷◌, ◌++◌}
use kyc_agent_nordvik.Effects.Ensures.{Ensures, Returns, Anything, skip-Returns, pure-Returns}
use kyc_agent_nordvik.Audit.Sink.{IsQuiet}
use kyc_agent_nordvik.Llm.Resilience.{succeeded, exhausted}
use kyc_agent_nordvik.Schemas.Decisions.{RuleFlag, RegistryHit}
use kyc_agent_nordvik.Graph.State.{KycState}
use kyc_agent_nordvik.Graph.Context.{PipelineContext, RegistryClient}
use kyc_agent_nordvik.Graph.Screening.{screen, screen_from, ScreeningNames}
use kyc_agent_nordvik.Graph.Nodes.Quiet.{emit-Returns, resilient-Returns}
use kyc_agent_nordvik.Graph.Nodes.Score.{
  ScreeningResult, screen_all, screen_owners, screened_owners, assess, run_risk_scorer,
  report_triggers,
}

module _ {W : Type 0} (ctx : PipelineContext W) (quiet : IsQuiet ctx.audit) where
  screen_from-Returns :
      (client : RegistryClient W) (case_id : String) (hits : List RegistryHit) (names : List String)
      → Ensures (screen_from ctx client case_id hits names) (Returns Anything)
  unfolding screen_from
  screen_from-Returns client case_id hits [] = pure-Returns _ tt
  screen_from-Returns client case_id hits (name ∷ names) =
      skip-Returns _ _ (resilient-Returns ctx _ _ _ _) (elim [
        | succeeded found errs ↦
            skip-Returns _ _ (emit-Returns ctx quiet _ _ _ _)
              (λ _. screen_from-Returns client case_id (hits ++ found) names)
        | exhausted step errs ↦
            skip-Returns _ _ (emit-Returns ctx quiet _ _ _ _) (λ _. pure-Returns _ tt)
      ])

  screen-Returns :
      (client : RegistryClient W) (case_id : String) (names : List String)
      → Ensures (screen ctx client case_id names) (Returns Anything)
  unfolding screen
  screen-Returns client case_id names = screen_from-Returns client case_id [] names

  module _ (s : KycState) where
    screened_owners-Returns :
        (names : List String) (r : ScreeningResult)
        → Ensures (screened_owners ctx s names r) (Returns Anything)
    unfolding screened_owners
    screened_owners-Returns [] r = pure-Returns _ tt
    screened_owners-Returns (name ∷ names) r =
        skip-Returns _ _ (screen-Returns _ _ _)
          (λ _. skip-Returns _ _ (screen-Returns _ _ _) (λ _. pure-Returns _ tt))

    screen_all-Returns :
        (names : ScreeningNames) → Ensures (screen_all ctx s names) (Returns Anything)
    unfolding screen_all screen_owners
    screen_all-Returns names =
        skip-Returns _ _ (screen-Returns _ _ _)
          (λ _. skip-Returns _ _ (screen-Returns _ _ _) (λ _. screened_owners-Returns _ _))

    report_triggers-Returns :
        (flags : List RuleFlag) → Ensures (report_triggers ctx s flags) (Returns Anything)
    unfolding report_triggers
    report_triggers-Returns [] = pure-Returns _ tt
    report_triggers-Returns (f ∷ flags) =
        skip-Returns _ _ (emit-Returns ctx quiet _ _ _ _) (λ _. report_triggers-Returns flags)

    assess-Returns : (r : ScreeningResult) → Ensures (assess ctx s r) (Returns Anything)
    unfolding assess
    assess-Returns r = skip-Returns _ _ (resilient-Returns ctx _ _ _ _) (λ _.
        skip-Returns _ _ (report_triggers-Returns _)
          (λ _. skip-Returns _ _ (emit-Returns ctx quiet _ _ _ _) (λ _. pure-Returns _ tt)))

    -- If the audit sink never raises, the risk scorer returns an update, whatever the registries and
    -- the models do.
    pub risk_scorer-Returns : Ensures (run_risk_scorer ctx s) (Returns Anything)
    unfolding run_risk_scorer
    risk_scorer-Returns = skip-Returns _ _ (screen_all-Returns _) (λ r. assess-Returns r)
