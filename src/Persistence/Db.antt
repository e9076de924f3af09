-- ===== src/Persistence/Db.antt =====
-- persistence/db.py: the audit trail in PostgreSQL, and the setup of the pool. The pool, the
-- driver, the saver of LangGraph and JSON are not in the repository: they are parameters, with what
-- their documentation says as laws.
pub mod Order
pub mod Table
pub mod Trail
pub mod Refines
use mathlib.Core.List.{Memᴰ}
use kyc_agent_nordvik.Prelude.{
  ℕ, ◌≤◌, ◌<◌, ◌≡◌, ◌⊎◌, String, true, Option, none, some, List, [], ◌∷◌, ◌++◌, All, get, map, ◌==◌,
}
use kyc_agent_nordvik.Effects.{
  Exception, Outcome, value, raised, Call, Run, pure, await, ◌>>=◌, ◌>>◌,
}
use kyc_agent_nordvik.Audit.Sink.{Payload, AuditEvent, AuditSink}

-- A parameter of a statement, and a column of a row that it answers.
pub data Value (Json : Type 0) : Type 0 where
  text : String → Value Json
  time : ℕ → Value Json
  json : Json → Value Json

-- A row, as `dict_row` makes it.
abbrev pub Dict : Type 0 → Type 0
Dict Json = List (String × Value Json)

-- AsyncConnectionPool, and AsyncPostgresSaver over it. `execute` takes a connection, executes the
-- statement in a transaction of its own, and fetches the rows.
pub record Pool (W Json : Type 0) : Type 0 where
  pub open_pool : Call W (Unit {0})
  pub close_pool : Call W (Unit {0})
  pub execute : String → List (Value Json) → Call W (List (Dict Json))
  pub setup_saver : Call W (Unit {0})

abbrev pub audit_ddl : List String
audit_ddl =
    "\n    CREATE TABLE IF NOT EXISTS audit_events (\n        id          BIGSERIAL PRIMARY KEY,\n        case_id     TEXT NOT NULL,\n        ts          TIMESTAMPTZ NOT NULL DEFAULT now(),\n        node        TEXT NOT NULL,\n        event_type  TEXT NOT NULL,\n        payload     JSONB NOT NULL\n    )\n    "
    ∷ "CREATE INDEX IF NOT EXISTS idx_audit_case ON audit_events (case_id, ts)" ∷ []

abbrev pub insert_event : String
insert_event =
    "INSERT INTO audit_events (case_id, ts, node, event_type, payload) VALUES (%s, %s, %s, %s, %s)"

abbrev pub select_events : String
select_events =
    "SELECT case_id, ts, node, event_type, payload FROM audit_events WHERE case_id = %s ORDER BY ts, id"

module _ {W Json : Type 0} (pool : Pool W Json) where
  unfoldable pub run_statements : List String → Run W (Unit {0})
  run_statements [] = pure tt
  run_statements (statement ∷ statements) = do
    await (pool.execute statement [])
    run_statements statements

  unfoldable pub setup_postgres : Run W (Unit {0})
  unfolding run_statements
  setup_postgres = do await pool.open_pool; await pool.setup_saver; run_statements audit_ddl

-- How a payload becomes JSON, how it is read back, and the exception of a row that is no event.
pub record Codec (Json : Type 0) : Type 0 where
  pub dumps : Payload → Json
  pub loads : Json → Payload
  pub invalid : Exception

abbrev pub emitted : {Json : Type 0} → Outcome (List (Dict Json)) → Outcome (Unit {0})
emitted (value rows) = value tt
emitted (raised exc) = raised exc

module _ {Json : Type 0} (codec : Codec Json) where
  -- AuditEvent.model_validate(row)
  columns_event :
      (case_id ts node_name event_type payload : Option (Value Json)) → Option AuditEvent
  columns_event (some (text case_id)) (some (time ts)) (some (text node_name))
        (some (text event_type)) (some (json payload)) =
      some (record {
        case_id = case_id;
        ts = ts;
        node = node_name;
        event_type = event_type;
        payload = codec.loads payload;
      })
  columns_event case_id ts node_name event_type payload = none

  abbrev validate_row : Dict Json → Option AuditEvent
  validate_row row =
      columns_event (get "case_id" row) (get "ts" row) (get "node" row) (get "event_type" row)
        (get "payload" row)

  abbrev cons_event : Option AuditEvent → Outcome (List AuditEvent) → Outcome (List AuditEvent)
  cons_event none rest = raised codec.invalid
  cons_event (some e) (value es) = value (e ∷ es)
  cons_event (some e) (raised exc) = raised exc

  unfoldable pub validate_rows : List (Dict Json) → Outcome (List AuditEvent)
  unfolding columns_event
  validate_rows [] = value []
  validate_rows (row ∷ rows) = cons_event (validate_row row) (validate_rows rows)

  abbrev pub fetched : Outcome (List (Dict Json)) → Outcome (List AuditEvent)
  fetched (value rows) = validate_rows rows
  fetched (raised exc) = raised exc

module _ {W Json : Type 0} (pool : Pool W Json) (codec : Codec Json) where
  -- PostgresAuditSink
  unfoldable pub postgres : AuditSink W
  unfolding validate_rows
  postgres = record {
    emit = λ event w.
        let (answer, w') =
          pool.execute insert_event
            (text event.case_id
              ∷ time event.ts
              ∷ text event.node
              ∷ text event.event_type
              ∷ json (codec.dumps event.payload)
              ∷ [])
            w in
        (emitted answer, w');
    events = λ case_id w.
        let (answer, w') = pool.execute select_events (text case_id ∷ []) w in
        (fetched codec answer, w');
  }
