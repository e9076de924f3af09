-- ===== src/Persistence/Db/Table.antt =====
-- The table audit_events of persistence/db.py: its rows, their order, and what PostgreSQL documents
-- of the statements that the code executes on it.
use mathlib.Core.List.{Memᴰ}
use kyc_agent_nordvik.Prelude.{
  ℕ, ◌<◌, ◌≡◌, ◌⊎◌, inl, inr, String, true, List, [], ◌∷◌, ◌++◌, All, map, ◌==◌, arith,
}
use kyc_agent_nordvik.Effects.{Exception, value, raised}
use kyc_agent_nordvik.Audit.Sink.{AuditEvent}
use kyc_agent_nordvik.Persistence.Db.{Value, text, time, json, Dict, Pool, Codec}
use kyc_agent_nordvik.Persistence.Db.Order.{Ascending}

pub record AuditRow (Json : Type 0) : Type 0 where
  pub id : ℕ
  pub case_id : String
  pub ts : ℕ
  pub node : String
  pub event_type : String
  pub payload : Json

module _ {Json : Type 0} where
  -- ORDER BY ts, id
  abbrev pub Earlier : AuditRow Json → AuditRow Json → Type 0
  Earlier r s = (r.ts < s.ts) ⊎ ((r.ts ≡ s.ts) × (r.id < s.id))

  pub Earlier-asym : (r s : AuditRow Json) → Earlier r s → Earlier s r → ⊥
  Earlier-asym r s (inl a) (inl b) = omega (arith, a, b)
  Earlier-asym r s (inl a) (inr (b, _)) = omega (arith, a, b)
  Earlier-asym r s (inr (a, _)) (inl b) = omega (arith, a, b)
  Earlier-asym r s (inr (_, a)) (inr (_, b)) = omega (arith, a, b)

  -- The columns that the SELECT names.
  abbrev pub columns : AuditRow Json → Dict Json
  columns r =
      ("case_id", text r.case_id)
      ∷ ("ts", time r.ts)
      ∷ ("node", text r.node)
      ∷ ("event_type", text r.event_type)
      ∷ ("payload", json r.payload)
      ∷ []

  -- The event of a row, and the row of an event.
  abbrev pub restored : Codec Json → AuditRow Json → AuditEvent
  restored codec r = record {
    case_id = r.case_id;
    ts = r.ts;
    node = r.node;
    event_type = r.event_type;
    payload = codec.loads r.payload;
  }

  abbrev pub inserted_row : Codec Json → (id : ℕ) → AuditEvent → AuditRow Json
  inserted_row codec id e = record {
    id = id;
    case_id = e.case_id;
    ts = e.ts;
    node = e.node;
    event_type = e.event_type;
    payload = codec.dumps e.payload;
  }

  abbrev pub parameters : AuditRow Json → List (Value Json)
  parameters r = text r.case_id ∷ time r.ts ∷ text r.node ∷ text r.event_type ∷ json r.payload ∷ []

-- `table` gives the rows in each state of the outside world, in the order in which they were
-- inserted. The laws name the statements by their texts.
pub record IsPostgres {W Json : Type 0} (pool : Pool W Json) (table : W → List (AuditRow Json))
    : Type 0 where
  -- The values go to the columns that the statement lists, and the row gets an id above all others.
  -- If the statement raises, there may or may not be a row.
  pub inserts :
      (r : AuditRow Json) (w : W)
      → let (o, w') =
          pool.execute
            "INSERT INTO audit_events (case_id, ts, node, event_type, payload) VALUES (%s, %s, %s, %s, %s)"
            (parameters r)
            w in
        ((exc : Exception) × (o ≡ raised exc) × (table w' ≡ table w))
        ⊎ ((id : ℕ) × All (λ s. s.id < id) (table w)
            × (table w' ≡ table w ++ record r { id = id } ∷ []))
  -- The rows of the case, each once, in the order of ORDER BY.
  pub selects :
      (case_id : String) (w : W)
      → let (o, _) =
          pool.execute
            "SELECT case_id, ts, node, event_type, payload FROM audit_events WHERE case_id = %s ORDER BY ts, id"
            (text case_id ∷ [])
            w in
        ((exc : Exception) × (o ≡ raised exc))
        ⊎ ((rows : List (AuditRow Json)) × (o ≡ value (map columns rows))
            × Ascending Earlier rows
            × ((r : AuditRow Json)
                → Memᴰ r rows
                → Memᴰ r (table w) × ((r.case_id == case_id) ≡ true))
            × ((r : AuditRow Json)
                → Memᴰ r (table w)
                → (r.case_id == case_id) ≡ true
                → Memᴰ r rows))
