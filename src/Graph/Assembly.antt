-- ===== src/Graph/Assembly.antt =====
-- `build_context` of graph/context.py. `memory` is a new in-memory audit sink, `now` is
-- `date.today()`, `clock` what `datetime.now(UTC)` answers, and each registry has its own random generator.
use kyc_agent_nordvik.Prelude.{ℕ, Bool, Option, none, some, List, [], ◌∷◌, All}
use kyc_agent_nordvik.Python.{Python, Patterns, Score, Date, PrintsDates}
use kyc_agent_nordvik.Effects.{Outcome, value}
use kyc_agent_nordvik.Audit.Sink.{AuditSink, safe, safe-IsQuiet}
use kyc_agent_nordvik.Llm.Base.{PipelineServices}
use kyc_agent_nordvik.Llm.Live.{ChatModel}
use kyc_agent_nordvik.Llm.Contract.{Answers, Extracts}
use kyc_agent_nordvik.Llm.Contract.FakeServices.{KeepsExpiry}
use kyc_agent_nordvik.Llm.Factory.{
  ModelRequest, ◌then_build◌, build_services, build_fallback_services,
}
use kyc_agent_nordvik.Llm.Factory.Choices.{AnswersFor, services_of-AnswersFor, then_build-Answers}
use kyc_agent_nordvik.Schemas.Documents.{InputDocument}
use kyc_agent_nordvik.Schemas.Case.{KycPackage}
use kyc_agent_nordvik.Tools.Registries.{sanctions_registry, pep_registry, client_of}
use kyc_agent_nordvik.Graph.Context.{PipelineContext, Settings}
use kyc_agent_nordvik.Graph.Builder.Sound.{Honours, Serves}

abbrev sink_or : {W : Type 0} → Option (AuditSink W) → AuditSink W → AuditSink W
sink_or none memory = memory
sink_or (some audit) memory = audit

abbrev date_or : Option Date → Date → Date
date_or none now = now
date_or (some today) now = today

module _ {W : Type 0} (py : Python) (re : Patterns) (init : ModelRequest → Outcome (ChatModel W))
    (random_sanctions random_pep : W → Score × W) (memory : AuditSink W) (now : Date)
    (clock : W → ℕ) where
  abbrev context_of :
      Settings
      → (services fallback : PipelineServices W) → Option (AuditSink W)
      → Option Date
      → Bool
      → PipelineContext W
  context_of settings services fallback audit today evaluator_enabled = record {
    settings = settings;
    services = services;
    fallback = fallback;
    audit = safe (sink_or audit memory);
    sanctions = client_of py random_sanctions (sanctions_registry settings.registry_failure_rate);
    pep = client_of py random_pep (pep_registry settings.registry_failure_rate);
    today = date_or today now;
    evaluator_enabled = evaluator_enabled;
    python = py;
    now = clock;
  }

  unfoldable pub build_context :
      Settings
      → (audit : Option (AuditSink W)) (today : Option Date) (evaluator_enabled : Bool)
      → Outcome (PipelineContext W)
  build_context settings audit today evaluator_enabled =
      build_services py re init settings then_build λ services.
      build_fallback_services py re init settings then_build λ fallback.
      value (context_of settings services fallback audit today evaluator_enabled)

  Serves-All :
      (ctx : PipelineContext W) (documents : List InputDocument)
      → All (Extracts ctx.python ctx.services.extract) documents
      → All (Extracts ctx.python ctx.fallback.extract) documents
      → All (Serves ctx) documents
  Serves-All ctx [] h k = tt
  Serves-All ctx (d ∷ documents) h k = ((h.0, k.0), Serves-All ctx documents h.1 k.1)

  -- If dates are printed as they are read, and no document of the package has a marker for an
  -- expiry date, then a context that is built at all, from whatever model specs, settings and audit
  -- sink, honours the contract of the nodes for the package.
  pub build_context-Honours :
      (settings : Settings) (audit : Option (AuditSink W)) (today : Option Date)
      (evaluator_enabled : Bool) (package' : KycPackage)
      → PrintsDates py
      → All (KeepsExpiry py re) package'.documents
      → Answers (λ ctx. Honours ctx package') (build_context settings audit today evaluator_enabled)
  unfolding build_context build_services build_fallback_services
  build_context-Honours settings audit today evaluator_enabled package' dates keeps =
      then_build-Answers (AnswersFor py re init settings package'.documents)
        (λ ctx. Honours ctx package') (build_services py re init settings) _
        (services_of-AnswersFor py re init settings settings.router_model settings.extractor_model
          settings.validator_model settings.risk_model package'.documents dates keeps)
        (λ services h.
          then_build-Answers (AnswersFor py re init settings package'.documents)
            (λ ctx. Honours ctx package') (build_fallback_services py re init settings) _
            (services_of-AnswersFor py re init settings settings.fallback_model
              settings.fallback_model settings.fallback_model settings.fallback_model
              package'.documents dates keeps)
            (λ fallback k. record {
              quiet = safe-IsQuiet (sink_or audit memory);
              classify = h.0;
              classify_fallback = k.0;
              serves =
                  Serves-All (context_of settings services fallback audit today evaluator_enabled)
                    package'.documents h.1 k.1;
            }))
