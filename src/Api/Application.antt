-- ===== src/Api/Application.antt =====
-- The start and the end of the application of api/main.py, and its health check. The constructors
-- of the pool and of the in-memory sink, and what `build_context` needs, are parameters.
pub mod Started
use kyc_agent_nordvik.Prelude.{ℕ, String, Bool, Option, true, none, some, List, []}
use kyc_agent_nordvik.Python.{Python, Patterns, Score, Date}
use kyc_agent_nordvik.Effects.{
  Outcome, value, raised, Result, ok, crash, uncaught, Run, pure, await, ◌>>=◌, ◌>>◌,
}
use kyc_agent_nordvik.Audit.Sink.{AuditSink}
use kyc_agent_nordvik.Llm.Live.{ChatModel}
use kyc_agent_nordvik.Llm.Factory.{ModelRequest}
use kyc_agent_nordvik.Persistence.Db
use kyc_agent_nordvik.Persistence.Db.{Pool, Codec, Dict, setup_postgres}
use kyc_agent_nordvik.Graph.Context.{
  PipelineContext, Settings, PersistenceBackend, memory, postgres,
}
use kyc_agent_nordvik.Graph.Assembly.{build_context}

-- app.state
pub record AppState (W Json : Type 0) : Type 0 where
  pub settings : Settings
  pub pool : Option (Pool W Json)
  pub audit : AuditSink W
  pub context : PipelineContext W

-- What the health check answers: HealthResponse(status="ok", ...), or 503.
pub data Health : Type 0 where
  healthy : (database : String) → Health
  unavailable : Health

-- What the application is built from.
pub record Parts (W Json : Type 0) : Type 0 where
  pub python : Python
  pub patterns : Patterns
  pub init : ModelRequest → Outcome (ChatModel W)
  pub random_sanctions : W → Score × W
  pub random_pep : W → Score × W
  pub memory : AuditSink W
  pub today : Date
  pub create_pool : String → Pool W Json
  pub codec : Codec Json
  pub now : W → ℕ

module _ {W Json : Type 0} (parts : Parts W Json) (settings : Settings) where
  abbrev pub app_context : AuditSink W → Outcome (PipelineContext W)
  app_context audit =
      build_context parts.python parts.patterns parts.init parts.random_sanctions parts.random_pep
        parts.memory parts.today parts.now settings (some audit) none true

  abbrev pub state_with : Option (Pool W Json) → PipelineContext W → AppState W Json
  state_with pool context = record {
    settings = settings;
    pool = pool;
    audit = context.audit;
    context = context;
  }

  unfoldable pub start_with : Option (Pool W Json) → AuditSink W → Run W (AppState W Json)
  start_with pool audit = do
    context ← await (λ w. (app_context audit, w))
    pure (state_with pool context)

  -- `lifespan` up to its `yield`.
  unfoldable pub start_on : PersistenceBackend → Run W (AppState W Json)
  unfolding start_with
  start_on memory = start_with none parts.memory
  start_on postgres = do
    let pool = parts.create_pool settings.database_url
    setup_postgres pool
    start_with (some pool) (Db.postgres pool parts.codec)

  unfoldable pub start : Run W (AppState W Json)
  unfolding start_on
  start = start_on settings.persistence_backend

-- What an exception of `close` does to the result of the `try`.
abbrev after_close : Result (Unit {0}) → Outcome (Unit {0}) → Result (Unit {0})
after_close r (value u) = r
after_close r (raised exc) = crash (uncaught exc)

module _ {W Json : Type 0} where
  -- `try: yield finally: ...`, with what the application does meanwhile.
  unfoldable pub serve_and_close : Option (Pool W Json) → Run W (Unit {0}) → Run W (Unit {0})
  serve_and_close none serve w = serve w
  serve_and_close (some pool) serve w =
      let (r, w') = serve w in let (answer, w'') = pool.close_pool w' in (after_close r answer, w'')

module _ {W Json : Type 0} (parts : Parts W Json) (settings : Settings) where
  unfoldable pub lifespan : (AppState W Json → Run W (Unit {0})) → Run W (Unit {0})
  unfolding start serve_and_close
  lifespan serve = do state ← start parts settings; serve_and_close state.pool (serve state)

abbrev health_answer : {Json : Type 0} → Outcome (List (Dict Json)) → Health
health_answer (value rows) = healthy "postgres"
health_answer (raised exc) = unavailable

module _ {W Json : Type 0} where
  unfoldable pub health_of : Option (Pool W Json) → W → Health × W
  health_of none w = (healthy "memory", w)
  health_of (some pool) w =
      let (answer, w') = pool.execute "SELECT 1" [] w in (health_answer answer, w')

  unfoldable pub health : AppState W Json → W → Health × W
  unfolding health_of
  health state w = health_of state.pool w
