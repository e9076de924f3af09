-- ===== src/Llm/Factory/Choices.antt =====
-- Which services llm/factory.py builds, and what the nodes can rely on in them.
use kyc_agent_nordvik.Prelude.{◌≡◌, refl, String, Bool, true, false, List, [], ◌∷◌, All}
use kyc_agent_nordvik.Python.{Python, Patterns, PrintsDates}
use kyc_agent_nordvik.Effects.{Outcome, value, raised}
use kyc_agent_nordvik.Llm.Base.{PipelineStep, PipelineServices}
use kyc_agent_nordvik.Llm.Live.{ChatModel, live_extract}
use kyc_agent_nordvik.Llm.Fake.{fake_classify, fake_extract}
use kyc_agent_nordvik.Llm.Fake.Evaluator.{fake_verify, fake_narrate}
use kyc_agent_nordvik.Llm.Contract.{Answers, Classifies, Extracts}
use kyc_agent_nordvik.Llm.Contract.LiveServices.{live_classify-Classifies, live_extract-Extracts}
use kyc_agent_nordvik.Llm.Contract.FakeServices.{
  fake_classify-Classifies, fake_extract-Extracts, KeepsExpiry,
}
use kyc_agent_nordvik.Llm.Factory.{
  is_fake, structured_method, choose, ◌then_build◌, ModelRequest, model_for, router_for,
  extractor_for, evaluator_for, narrator_for, services_of, build_services, build_fallback_services,
}
use kyc_agent_nordvik.Schemas.Documents.{InputDocument}
use kyc_agent_nordvik.Graph.Context.{Settings}

-- Where nothing is to be known of what is built.
abbrev pub Any : {A : Type 0} → A → Type 0
Any a = Unit

pub Any-Answers : {A : Type 0} (o : Outcome A) → Answers Any o
Any-Answers (value a) = tt
Any-Answers (raised exc) = tt

module _ {A B : Type 0} (P : A → Type 0) (Q : B → Type 0) where
  pub then_build-Answers :
      (o : Outcome A) (f : A → Outcome B)
      → Answers P o
      → ((a : A) → P a → Answers Q (f a))
      → Answers Q (o then_build f)
  then_build-Answers (value a) f h k = k a h
  then_build-Answers (raised exc) f h k = tt

pub choose-Answers :
    {A : Type 0} (P : A → Type 0) (b : Bool) (x y : Outcome A)
    → Answers P x
    → Answers P y
    → Answers P (choose b x y)
choose-Answers P true x y h k = h
choose-Answers P false x y h k = k

module _ {W : Type 0} (py : Python) (re : Patterns) where
  abbrev pub fake_services : PipelineServices W
  fake_services = record {
    classify = fake_classify py re;
    extract = fake_extract py re;
    verify_grounding = fake_verify py re;
    narrate = fake_narrate;
  }

module _ {W : Type 0} (py : Python) (re : Patterns) (init : ModelRequest → Outcome (ChatModel W))
    (settings : Settings) where
  -- Services that answer for these documents as the nodes rely on.
  abbrev pub AnswersFor : List InputDocument → PipelineServices W → Type 0
  AnswersFor documents services =
      Classifies py services.classify × All (Extracts py services.extract) documents

  router_for-Classifies :
      (spec : String) → Answers (Classifies py) (router_for py re init spec settings)
  unfolding router_for
  router_for-Classifies spec =
      choose-Answers (Classifies py) (is_fake spec) _ _ (fake_classify-Classifies py re) (
        then_build-Answers Any (Classifies py)
          (model_for py re init spec PipelineStep.router settings) _ (Any-Answers _)
          (λ model _. live_classify-Classifies py model (structured_method spec)))

  All-extracted :
      (documents : List InputDocument) (extract : InputDocument → _)
      → ((d : InputDocument) → KeepsExpiry py re d → Extracts {W = W} py extract d)
      → All (KeepsExpiry py re) documents
      → All (Extracts py extract) documents
  All-extracted [] extract h k = tt
  All-extracted (d ∷ documents) extract h k = (h d k.0, All-extracted documents extract h k.1)

  extractor_for-Extracts :
      (spec : String) (documents : List InputDocument)
      → PrintsDates py
      → All (KeepsExpiry py re) documents
      → Answers
          (λ extract. All (Extracts py extract) documents)
          (extractor_for py re init spec settings)
  unfolding extractor_for
  extractor_for-Extracts spec documents dates keeps =
      choose-Answers (λ extract. All (Extracts py extract) documents) (is_fake spec) _ _
        (All-extracted documents (fake_extract py re) (λ d h. fake_extract-Extracts py re dates d h)
          keeps)
        (then_build-Answers Any (λ extract. All (Extracts py extract) documents)
          (model_for py re init spec PipelineStep.extractor settings) _ (Any-Answers _)
          (λ model _.
            All-extracted documents (live_extract py model (structured_method spec))
              (λ d h. live_extract-Extracts py model (structured_method spec) dates d) keeps))

  -- If dates are printed as they are read and no document has a marker for an expiry date, then
  -- services that are built at all, from whatever specs, answer for the documents as the nodes rely
  -- on.
  pub services_of-AnswersFor :
      (router extractor evaluator narrator : String) (documents : List InputDocument)
      → PrintsDates py
      → All (KeepsExpiry py re) documents
      → Answers
          (AnswersFor documents)
          (services_of py re init router extractor evaluator narrator settings)
  unfolding services_of
  services_of-AnswersFor router extractor evaluator narrator documents dates keeps =
      then_build-Answers (Classifies py) (AnswersFor documents)
        (router_for py re init router settings) _ (router_for-Classifies router)
        (λ classify h.
          then_build-Answers (λ extract. All (Extracts py extract) documents) (AnswersFor documents)
            (extractor_for py re init extractor settings) _
            (extractor_for-Extracts extractor documents dates keeps)
            (λ extract k.
              then_build-Answers Any (AnswersFor documents)
                (evaluator_for py re init evaluator settings) _ (Any-Answers _)
                (λ verify _.
                  then_build-Answers Any (AnswersFor documents)
                    (narrator_for py re init narrator settings) _ (Any-Answers _)
                    (λ narrate _. (h, k)))))

  -- If the provider of every spec is `fake`, both sets of services are the deterministic ones.
  pub build_services-fake :
      is_fake settings.router_model ≡ true
      → is_fake settings.extractor_model ≡ true
      → is_fake settings.validator_model ≡ true
      → is_fake settings.risk_model ≡ true
      → is_fake settings.fallback_model ≡ true
      → (build_services py re init settings ≡ value (fake_services py re))
        × (build_fallback_services py re init settings ≡ value (fake_services py re))
  unfolding build_services build_fallback_services
  build_services-fake r e v n f =
      (rw (r, e, v, n, build_services) refl, rw (f, build_fallback_services) refl)
