-- ===== src/Api/Application/Started.antt =====
-- The application of api/main.py once it has started.
use kyc_agent_nordvik.Prelude.{◌≡◌, refl, Option, none, some, List, []}
use kyc_agent_nordvik.Effects.{Outcome, value, raised, await}
use kyc_agent_nordvik.Effects.Ensures.{Ensures, IfOk, bind-IfOk, skip-IfOk, pure-IfOk}
use kyc_agent_nordvik.Audit.Sink.{AuditSink, safe}
use kyc_agent_nordvik.Llm.Contract.{Answers}
use kyc_agent_nordvik.Llm.Factory.{◌then_build◌, build_services, build_fallback_services}
use kyc_agent_nordvik.Persistence.Db
use kyc_agent_nordvik.Persistence.Db.{Pool, Dict}
use kyc_agent_nordvik.Graph.Context.{
  PipelineContext, Settings, PersistenceBackend, memory, postgres,
}
use kyc_agent_nordvik.Graph.Assembly.{build_context}
use kyc_agent_nordvik.Api.Application.{
  AppState, Health, healthy, unavailable, Parts, app_context, start_with, start_on, start,
  health_answer, health_of, health,
}

-- A build step of which nothing is to be known.
skip-Answers :
    {A B : Type 0} (Q : B → Type 0) (o : Outcome A) (f : A → Outcome B)
    → ((a : A) → Answers Q (f a))
    → Answers Q (o then_build f)
skip-Answers Q (value a) f h = h a
skip-Answers Q (raised exc) f h = tt

-- What the health check answers when its query answers this.
abbrev pub Tells : {A : Type 0} → Outcome A → Health → Type 0
Tells (value rows) h = h ≡ healthy "postgres"
Tells (raised exc) h = h ≡ unavailable

module _ {W Json : Type 0} (parts : Parts W Json) (settings : Settings) where
  -- The sink that a backend stands for.
  abbrev pub sink_for : PersistenceBackend → AuditSink W
  sink_for memory = parts.memory
  sink_for postgres = Db.postgres (parts.create_pool settings.database_url) parts.codec

  abbrev pub pool_for : PersistenceBackend → Option (Pool W Json)
  pool_for memory = none
  pool_for postgres = some (parts.create_pool settings.database_url)

  -- What the health check answers for a backend, in a state of the outside world.
  abbrev pub Reports : PersistenceBackend → W → Health → Type 0
  Reports memory w h = h ≡ healthy "memory"
  Reports postgres w h =
      Tells ((parts.create_pool settings.database_url).execute "SELECT 1" [] w).0 h

  abbrev pub IsServing : PersistenceBackend → AppState W Json → Type 0
  IsServing backend state =
      (state.audit ≡ safe (sink_for backend))
      × (state.context.audit ≡ safe (sink_for backend))
      × (state.pool ≡ pool_for backend)
      × ((w : W) → Reports backend w (health state w).0)

  context-safe :
      (audit : AuditSink W)
      → Answers (λ ctx. ctx.audit ≡ safe audit) (app_context parts settings audit)
  unfolding build_context
  context-safe audit =
      skip-Answers (λ (ctx : PipelineContext W). ctx.audit ≡ safe audit)
        (build_services parts.python parts.patterns parts.init settings) _
        (λ services.
          skip-Answers (λ (ctx : PipelineContext W). ctx.audit ≡ safe audit)
            (build_fallback_services parts.python parts.patterns parts.init settings) _
            (λ fallback. refl))

  awaited-IfOk :
      {A : Type 0} (P : A → Type 0) (o : Outcome A)
      → Answers P o
      → Ensures {W = W} (await (λ w. (o, w))) (IfOk P)
  unfolding await
  awaited-IfOk P (value a) h = record { at = λ w. h }
  awaited-IfOk P (raised exc) h = record { at = λ w. tt }

  health_answer-Tells : (o : Outcome (List (Dict Json))) → Tells o (health_answer o)
  health_answer-Tells (value rows) = refl
  health_answer-Tells (raised exc) = refl

  health_of-Reports :
      (backend : PersistenceBackend) (w : W) → Reports backend w (health_of (pool_for backend) w).0
  unfolding health_of
  health_of-Reports memory w = refl
  health_of-Reports postgres w = health_answer-Tells _

  start_with-IsServing :
      (backend : PersistenceBackend)
      → Ensures
          (start_with parts settings (pool_for backend) (sink_for backend))
          (IfOk (IsServing backend))
  unfolding start_with health
  start_with-IsServing backend =
      bind-IfOk _ _ (awaited-IfOk _ _ (context-safe (sink_for backend)))
        (λ context e. pure-IfOk _ (e, e, refl, health_of-Reports backend))

  start_on-IsServing :
      (backend : PersistenceBackend)
      → Ensures (start_on parts settings backend) (IfOk (IsServing backend))
  unfolding start_on
  start_on-IsServing memory = start_with-IsServing memory
  start_on-IsServing postgres = skip-IfOk _ _ (λ _. start_with-IsServing postgres)

  -- If the application starts at all, then its routes and its graph write the audit trail to the
  -- sink of the backend that the settings name, behind the safe one; its pool is that of the backend,
  -- and there is none for the one in memory; and in every state of the outside world the health check
  -- answers "memory" for the one backend; for the other it answers "postgres" if the database answers
  -- the query SELECT 1, and 503 if the query raises.
  pub start-IsServing :
      Ensures (start parts settings) (IfOk (IsServing settings.persistence_backend))
  unfolding start
  start-IsServing = start_on-IsServing settings.persistence_backend
