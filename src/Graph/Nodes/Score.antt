-- ===== src/Graph/Nodes/Score.antt =====
-- `risk_scorer` of graph/nodes.py: registry screening, the risk rules and their narration.
pub mod Answers
pub mod Hits
pub mod Named
pub mod Outage
use kyc_agent_nordvik.Prelude.{
  String, Bool, true, false, not, ◌&&◌, Option, none, some, List, [], ◌∷◌, ◌++◌, map, concat, join,
  length, nonempty, if◌then◌else◌,
}
use kyc_agent_nordvik.Effects.{Run, pure, ◌>>=◌, ◌>>◌}
use kyc_agent_nordvik.Audit.Sink.{flag, risk}
use kyc_agent_nordvik.Llm.Base.{PipelineStep}
use kyc_agent_nordvik.Llm.Resilience.{Attempted, succeeded, exhausted}
use kyc_agent_nordvik.Python.{Score}
use kyc_agent_nordvik.Rules.Risk.{RiskThresholds, evaluate_risk_rules, risk_level, rule_id_of}
use kyc_agent_nordvik.Schemas.Ids.{value}
use kyc_agent_nordvik.Schemas.Case.{KycPackage}
use kyc_agent_nordvik.Schemas.Decisions.{
  RuleFlag, RegistryHit, Registry, sanctions, pep, ValidationReport, RiskAssessment,
}
use kyc_agent_nordvik.Graph.State.{KycState, Update, no_update}
use kyc_agent_nordvik.Graph.Context.{PipelineContext, Settings}
use kyc_agent_nordvik.Graph.Screening.{ScreeningNames, screening_names, screen}
use kyc_agent_nordvik.Graph.Nodes.Base.{emit, resilient}

abbrev pub risk_thresholds : Settings → RiskThresholds
risk_thresholds settings = record {
  high_volume_individual_eur = settings.high_volume_threshold_individual_eur;
  high_volume_business_eur = settings.high_volume_threshold_business_eur;
  confidence = settings.confidence_threshold;
}

abbrev pub flags_of : Option ValidationReport → List RuleFlag
flags_of none = []
flags_of (some v) = v.rule_flags

abbrev pub confidence_of : Option ValidationReport → Score
confidence_of none = 0
confidence_of (some v) = v.overall_confidence

-- What the registries answered.
pub record ScreeningResult : Type 0 where
  pub sanctions_hits : List RegistryHit
  pub pep_hits : List RegistryHit
  pub ubo_hits : List RegistryHit
  pub sanctions_ok : Bool
  pub pep_ok : Bool

abbrev pub unavailable_of : ScreeningResult → List Registry
unavailable_of r =
    (if r.sanctions_ok then [] else sanctions ∷ []) ++ (if r.pep_ok then [] else pep ∷ [])

abbrev line_of : RuleFlag → String
line_of f = concat (value f.rule_id ∷ ": " ∷ f.details ∷ [])

abbrev plain_rationale : List RuleFlag → String
plain_rationale [] = "no risk triggers fired"
plain_rationale (f ∷ flags) = join "; " (map line_of (f ∷ flags))

abbrev rationale_of : List RuleFlag → Attempted String → String
rationale_of triggered (succeeded rationale _) = rationale
rationale_of triggered (exhausted _ _) = plain_rationale triggered

-- The triggers that follow from a package, its validation and the registries' answers.
abbrev pub triggered_by :
    {W : Type 0}
    → PipelineContext W
    → KycPackage
    → Option ValidationReport
    → ScreeningResult
    → List RuleFlag
triggered_by ctx package' validation r =
    evaluate_risk_rules ctx.python package'.customer_type
      package'.applicant.expected_monthly_volume_eur (confidence_of validation)
      (flags_of validation) r.sanctions_hits r.pep_hits r.ubo_hits (unavailable_of r)
      (risk_thresholds ctx.settings)

module _ {W : Type 0} (ctx : PipelineContext W) (state : KycState) where
  -- `if owner_names:`
  unfoldable pub screened_owners : List String → ScreeningResult → Run W ScreeningResult
  screened_owners [] r = pure r
  screened_owners (name ∷ names) r = do
    (found, found_ok) ← screen ctx ctx.sanctions state.case_id (name ∷ names)
    (pep_found, pep_found_ok) ← screen ctx ctx.pep state.case_id (name ∷ names)
    pure (record r {
      ubo_hits = found ++ pep_found;
      sanctions_ok = r.sanctions_ok && found_ok;
      pep_ok = r.pep_ok && pep_found_ok;
    })

  unfoldable pub screen_owners : ScreeningNames → ScreeningResult → Run W ScreeningResult
  unfolding screened_owners
  screen_owners names r = screened_owners names.owner_names r

  -- The calls of `_screen`, in order.
  unfoldable pub screen_all : ScreeningNames → Run W ScreeningResult
  unfolding screen_owners
  screen_all names = do
    (found, found_ok) ← screen ctx ctx.sanctions state.case_id (names.persons ++ names.companies)
    (pep_found, pep_found_ok) ← screen ctx ctx.pep state.case_id names.persons
    screen_owners names (record {
      sanctions_hits = found;
      pep_hits = pep_found;
      ubo_hits = [];
      sanctions_ok = found_ok;
      pep_ok = pep_found_ok;
    })

  unfoldable pub report_triggers : List RuleFlag → Run W (Unit {0})
  report_triggers [] = pure tt
  report_triggers (f ∷ flags) = do
    emit ctx state.case_id "risk_scorer" "rule_triggered" (flag f.rule_id f.severity f.details)
    report_triggers flags

  abbrev pub assessment : ScreeningResult → Attempted String → RiskAssessment
  assessment r narration = record {
    level = risk_level (triggered_by ctx state.kyc_package state.validation r);
    triggered_rules = triggered_by ctx state.kyc_package state.validation r;
    sanctions_hits = r.sanctions_hits;
    pep_hits = r.pep_hits ++ r.ubo_hits;
    rationale = rationale_of (triggered_by ctx state.kyc_package state.validation r) narration;
  }

  unfoldable pub assess : ScreeningResult → Run W Update
  unfolding report_triggers
  assess r = do
    let triggered = triggered_by ctx state.kyc_package state.validation r
    let flags = flags_of state.validation
    let applicant = state.kyc_package.applicant
    narration ←
        resilient ctx PipelineStep.risk "risk_scorer"
          (ctx.services.narrate applicant triggered flags)
          (some (ctx.fallback.narrate applicant triggered flags))
    report_triggers triggered
    emit ctx state.case_id "risk_scorer" "node_completed" (
        risk (risk_level triggered) (map rule_id_of triggered) (length r.sanctions_hits)
          (length r.pep_hits) (length r.ubo_hits))
    pure (record no_update { risk = some (assessment r narration) })

  unfoldable pub run_risk_scorer : Run W Update
  unfolding screen_all assess screening_names
  run_risk_scorer = do r ← screen_all (screening_names state); assess r
