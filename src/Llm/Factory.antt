-- ===== src/Llm/Factory.antt =====
-- llm/factory.py: which service each step gets. `init` is `init_chat_model` of LangChain, which may
-- raise; the cache around it keeps models by their arguments and is left out.
pub mod Choices
pub mod Typed
use kyc_agent_nordvik.Prelude.{
  ℕ, String, Bool, true, false, Option, none, some, List, [], ◌∷◌, concat, truthy, partition_colon,
  ◌==◌, if◌then◌else◌,
}
use kyc_agent_nordvik.Python.{Python, Patterns, Score}
use kyc_agent_nordvik.Effects.{Exception, Outcome, value, raised, Call}
use kyc_agent_nordvik.Llm.Base.{PipelineStep, PipelineServices}
use kyc_agent_nordvik.Llm.Live.{ChatModel, live_classify, live_extract}
use kyc_agent_nordvik.Llm.Live.Evaluator.{live_verify, live_narrate}
use kyc_agent_nordvik.Llm.Fake.{fake_classify, fake_extract}
use kyc_agent_nordvik.Llm.Fake.Evaluator.{fake_verify, fake_narrate}
use kyc_agent_nordvik.Schemas.Case.{CustomerType, ApplicantDeclared}
use kyc_agent_nordvik.Schemas.Documents.{DocumentType, InputDocument, ClassifiedDocument}
use kyc_agent_nordvik.Schemas.Decisions.{ExtractionResult, RuleFlag}
use kyc_agent_nordvik.Graph.Context.{Settings}

-- model_spec.partition(":")[0] and [2]
abbrev pub provider_of : String → String
provider_of spec = (partition_colon spec).0

abbrev pub model_of : String → String
model_of spec = (partition_colon spec).1

unfoldable pub is_fake : String → Bool
unfolding partition_colon
is_fake spec = provider_of spec == "fake"

unfoldable pub is_openai : String → Bool
unfolding partition_colon
is_openai spec = provider_of spec == "openai"

-- TEMPERATURE_BY_STEP
abbrev pub temperature : PipelineStep → Score
temperature step = 0

-- `if base_url: kwargs["base_url"] = base_url`
abbrev pub given : Option String → Option String
given none = none
given (some s) = if truthy s then some s else none

unfoldable pub creds : String → Settings → Option String × Option String
unfolding is_openai
creds spec settings =
    if is_openai spec then (settings.openai_base_url, settings.openai_api_key) else (none, none)

unfoldable pub structured_method : String → Option String
unfolding is_openai
structured_method spec = if is_openai spec then some "json_schema" else none

-- The keyword arguments of `init_chat_model`.
pub record ModelRequest : Type 0 where
  pub model : String
  pub model_provider : String
  pub temperature : Score
  pub base_url : Option String
  pub api_key : Option String

abbrev invalid_spec : (py_repr : String → String) → String → Exception
invalid_spec repr spec = record {
  type_name = "ValueError";
  message = concat ("invalid model spec " ∷ repr spec ∷ ": expected 'provider:model_name'" ∷ []);
}

module _ {A B : Type 0} where
  infixl 5 ◌then_build◌
  abbrev pub ◌then_build◌ : Outcome A → (A → Outcome B) → Outcome B
  value a then_build f = f a
  raised exc then_build f = raised exc

-- A choice that is not forced before it is made: Python runs one branch only.
abbrev pub choose : {A : Type 0} → Bool → Outcome A → Outcome A → Outcome A
choose true x y = x
choose false x y = y

module _ {W : Type 0} (py : Python) (re : Patterns)
    (init : ModelRequest → Outcome (ChatModel W)) where
  unfoldable pub chat_model : String → Score → Option String → Option String → Outcome (ChatModel W)
  unfolding partition_colon
  chat_model spec temp base_url api_key =
      choose (truthy (model_of spec))
        (init (record {
          model = model_of spec;
          model_provider = provider_of spec;
          temperature = temp;
          base_url = given base_url;
          api_key = given api_key;
        }))
        (raised (invalid_spec py.repr spec))

  unfoldable pub model_for : String → PipelineStep → Settings → Outcome (ChatModel W)
  unfolding chat_model creds
  model_for spec step settings =
      let (base_url, api_key) = creds spec settings in
      chat_model spec (temperature step) base_url api_key

  unfoldable pub router_for :
      String
      → Settings
      → Outcome (List InputDocument → CustomerType → Call W (List ClassifiedDocument))
  unfolding is_fake model_for structured_method
  router_for spec settings = choose (is_fake spec) (value (fake_classify py re)) (
      model_for spec PipelineStep.router settings then_build λ model.
      value (live_classify py model (structured_method spec)))

  unfoldable pub extractor_for :
      String → Settings → Outcome (InputDocument → DocumentType → Call W ExtractionResult)
  unfolding is_fake model_for structured_method
  extractor_for spec settings = choose (is_fake spec) (value (fake_extract py re)) (
      model_for spec PipelineStep.extractor settings then_build λ model.
      value (live_extract py model (structured_method spec)))

  unfoldable pub evaluator_for :
      String → Settings → Outcome (InputDocument → ExtractionResult → Call W (List RuleFlag))
  unfolding is_fake model_for structured_method
  evaluator_for spec settings = choose (is_fake spec) (value (fake_verify py re)) (
      model_for spec PipelineStep.validator settings then_build λ model.
      value (live_verify py model (structured_method spec)))

  unfoldable pub narrator_for :
      String
      → Settings
      → Outcome (ApplicantDeclared → List RuleFlag → List RuleFlag → Call W String)
  unfolding is_fake model_for
  narrator_for spec settings =
      choose (is_fake spec) (value fake_narrate)
        (model_for spec PipelineStep.risk settings then_build λ model. value (live_narrate model))

  -- The four services, built in this order.
  unfoldable pub services_of :
      (router extractor evaluator narrator : String) → Settings → Outcome (PipelineServices W)
  unfolding router_for extractor_for evaluator_for narrator_for
  services_of router extractor evaluator narrator settings =
      router_for router settings then_build λ classify.
      extractor_for extractor settings then_build λ extract.
      evaluator_for evaluator settings then_build λ verify.
      narrator_for narrator settings then_build λ narrate. value (record {
        classify = classify;
        extract = extract;
        verify_grounding = verify;
        narrate = narrate;
      })

  unfoldable pub build_services : Settings → Outcome (PipelineServices W)
  unfolding services_of
  build_services settings =
      services_of settings.router_model settings.extractor_model settings.validator_model
        settings.risk_model settings

  unfoldable pub build_fallback_services : Settings → Outcome (PipelineServices W)
  unfolding services_of
  build_fallback_services settings =
      let spec = settings.fallback_model in services_of spec spec spec spec settings
