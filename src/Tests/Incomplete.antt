-- ===== src/Tests/Incomplete.antt =====
-- A case with the deterministic services: no document is recognised, and it waits for a human.
use kyc_agent_nordvik.Prelude.{◌≡◌, refl, none, [], contains}
use kyc_agent_nordvik.Python.{Patterns}
use kyc_agent_nordvik.Effects.{◌>>=◌}
use kyc_agent_nordvik.Rules.Validation.{check_package_completeness}
use kyc_agent_nordvik.Rules.Risk.{decide_gate}
use kyc_agent_nordvik.Graph.State.{apply_update}
use kyc_agent_nordvik.Graph.Context.{PipelineContext}
use kyc_agent_nordvik.Graph.Nodes.Base.{
  NodeName, intake, router, orchestrator, decision_gate, human_review, emit, resilient,
}
use kyc_agent_nordvik.Graph.Nodes.Intake.{run_intake, run_router, run_orchestrator}
use kyc_agent_nordvik.Graph.Nodes.Decide.{run_decision_gate}
use kyc_agent_nordvik.Graph.Builder.{Config, waiting, run_node, node, Reach, here, next}
use kyc_agent_nordvik.Graph.Builder.Safety.{submitted}
use kyc_agent_nordvik.Graph.Builder.Sound.{Honours}
use kyc_agent_nordvik.Llm.Resilience.{run_resilient}
use kyc_agent_nordvik.Llm.Fake.{fake_classify, fake_extract, type_by_keywords}
use kyc_agent_nordvik.Llm.Factory.Choices.{fake_services}
use kyc_agent_nordvik.Llm.Contract.{Extracts}
use kyc_agent_nordvik.Llm.Contract.FakeServices.{fake_classify-Classifies, fake_extract-Extracts}
use kyc_agent_nordvik.Samples.{context, package_of, anna, passport, bill}
use kyc_agent_nordvik.Tests.Dates.{dated_python, dated-PrintsDates}

-- No pattern matches.
abbrev pub no_patterns : Patterns
no_patterns = record {
  label_value = λ label content. none;
  year_first = λ raw. none;
  day_first = λ raw. none;
  owner_lines = λ content. [];
  glitches = λ content. [];
  without_glitches = λ content. content;
}

abbrev pub offline : PipelineContext (Unit {0})
offline = record context {
  services = fake_services dated_python no_patterns;
  fallback = fake_services dated_python no_patterns;
  python = dated_python;
}

reads_passport :
    Extracts {W = Unit {0}} dated_python (fake_extract dated_python no_patterns) passport
reads_passport = fake_extract-Extracts dated_python no_patterns dated-PrintsDates passport refl

reads_bill : Extracts {W = Unit {0}} dated_python (fake_extract dated_python no_patterns) bill
reads_bill = fake_extract-Extracts dated_python no_patterns dated-PrintsDates bill refl

pub offline-Honours : Honours offline (package_of anna)
offline-Honours = record {
  quiet = λ event w. refl;
  classify = fake_classify-Classifies dated_python no_patterns;
  classify_fallback = fake_classify-Classifies dated_python no_patterns;
  serves = ((reads_passport, reads_passport), ((reads_bill, reads_bill), tt));
}

abbrev step_at : NodeName → Config (Unit {0}) → Config (Unit {0})
step_at n c = run_node offline n c.state c.world

abbrev pub asked : Config (Unit {0})
asked = step_at human_review (
    step_at decision_gate (
      step_at orchestrator
        (step_at router (step_at intake (submitted offline "case-2" (package_of anna) tt)))))

pub asked_run : Reach offline (submitted offline "case-2" (package_of anna) tt) asked
unfolding run_node run_intake run_router run_orchestrator run_decision_gate
    check_package_completeness decide_gate emit resilient run_resilient ◌>>=◌ apply_update
    fake_classify type_by_keywords contains
asked_run =
    next
      (next
        (next (next (next here (node intake refl refl)) (node router refl refl))
          (node orchestrator refl refl))
        (node decision_gate refl refl))
      (node human_review refl refl)

pub asked-waiting : asked.pc ≡ waiting []
unfolding run_node run_intake run_router run_orchestrator run_decision_gate
    check_package_completeness decide_gate emit resilient run_resilient ◌>>=◌ apply_update
    fake_classify type_by_keywords contains
asked-waiting = refl
