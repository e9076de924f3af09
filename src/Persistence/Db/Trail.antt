-- ===== src/Persistence/Db/Trail.antt =====
-- One write to the table of persistence/db.py, and one reading of it.
use mathlib.Core.List.{Memᴰ}
use kyc_agent_nordvik.Prelude.{
  ℕ, ◌≤◌, ◌<◌, ◌≡◌, refl, sym, ap, ◌∙◌, subst, ◌⊎◌, inl, inr, String, true, List, [], ◌∷◌, ◌++◌,
  All, All-append, All-map_of, map, ◌==◌, select, Bool-cases, arith,
}
use kyc_agent_nordvik.Effects.{Exception, Outcome, value, raised}
use kyc_agent_nordvik.Audit.Sink.{AuditEvent, AuditSink}
use kyc_agent_nordvik.Persistence.Db.{
  Pool, Codec, columns_event, validate_rows, emitted, fetched, postgres,
}
use kyc_agent_nordvik.Persistence.Db.Order.{
  Ascending, Ascending-append, Ascending-select, Ascending-unique, Mem-select, select-Mem,
}
use kyc_agent_nordvik.Persistence.Db.Table.{
  AuditRow, Earlier, Earlier-asym, columns, restored, inserted_row, IsPostgres,
}

le_cases : (m n : ℕ) → m ≤ n → (m < n) ⊎ (m ≡ n)
le_cases m n h = ground arith

module _ {W Json : Type 0} (pool : Pool W Json) (codec : Codec Json)
    (table : W → List (AuditRow Json)) (db : IsPostgres pool table) where
  abbrev pub sink : AuditSink W
  sink = postgres pool codec

  -- The events that the rows stand for, and an event as it comes back from the table.
  abbrev pub held : W → List AuditEvent
  held w = map (restored codec) (table w)

  abbrev pub through_json : AuditEvent → AuditEvent
  through_json e = record e { payload = codec.loads (codec.dumps e.payload) }

  -- The rows are in the order of their times and ids, and none is later than `t`.
  abbrev Ordered : List (AuditRow Json) → ℕ → Type 0
  Ordered rows t = Ascending Earlier rows × All (λ r. r.ts ≤ t) rows

  abbrev pub InOrder : W → ℕ → Type 0
  InOrder w t = Ordered (table w) t

  -- What a write did: nothing, with an exception; or it appended the row of the event.
  abbrev pub Wrote : AuditEvent → W → Outcome (Unit {0}) → W → Type 0
  Wrote e w o w' =
      ((((exc : Exception) × (o ≡ raised exc)) × (table w' ≡ table w))
        ⊎ ((id : ℕ) × All (λ s. s.id < id) (table w)
            × (table w' ≡ table w ++ inserted_row codec id e ∷ [])))

  pub emit_lem : (e : AuditEvent) (w : W) → Wrote e w (sink.emit e w).0 (sink.emit e w).1
  unfolding postgres
  emit_lem e w = elim (db.inserts (inserted_row codec 0 e) w) [
    | inl (exc, f, g) ↦ inl ((exc, ap emitted f), g)
    | inr (id, f, g) ↦ inr (id, f, g)
  ]

  next-Earlier : (s r : AuditRow Json) → s.ts ≤ r.ts → s.id < r.id → Earlier s r
  next-Earlier s r h k = elim (le_cases s.ts r.ts h) [ inl l ↦ inl l | inr e ↦ inr (e, k) ]

  next_all-Earlier :
      (rows : List (AuditRow Json)) (r : AuditRow Json)
      → All (λ s. s.ts ≤ r.ts) rows
      → All (λ s. s.id < r.id) rows
      → All (λ s. Earlier s r) rows
  next_all-Earlier [] r h k = tt
  next_all-Earlier (s ∷ rows) r (h, hs) (k, ks) =
      (next-Earlier s r h k, next_all-Earlier rows r hs ks)

  Ordered-later : (rows : List (AuditRow Json)) (m n : ℕ) → m ≤ n → Ordered rows m → Ordered rows n
  Ordered-later rows m n h (a, k) =
      (a, All-map_of (λ r. r.ts ≤ m) (λ r. r.ts ≤ n) rows (λ r k. omega (arith, h, k)) k)

  Ordered-append :
      (rows : List (AuditRow Json)) (r : AuditRow Json)
      → Ordered rows r.ts
      → All (λ s. s.id < r.id) rows
      → Ordered (rows ++ r ∷ []) r.ts
  Ordered-append rows r (a, k) f = (
    Ascending-append Earlier rows r a (next_all-Earlier rows r k f),
    All-append (λ s. s.ts ≤ r.ts) rows (r ∷ []) k (omega arith, tt),
  )

  -- The write of an event that is not earlier than the rows keeps them in order.
  pub emit-InOrder :
      (e : AuditEvent) (w : W) (t : ℕ) → InOrder w t → t ≤ e.ts → InOrder (sink.emit e w).1 e.ts
  unfolding postgres
  emit-InOrder e w t h k = elim (emit_lem e w) [
    | inl (_, g) ↦ subst (λ rows. Ordered rows e.ts) (sym g) (Ordered-later (table w) t e.ts k h)
    | inr (id, f, g) ↦
        subst (λ rows. Ordered rows e.ts) (sym g)
          (Ordered-append (table w) (inserted_row codec id e) (Ordered-later (table w) t e.ts k h)
            f)
  ]

  select-held :
      (case_id : String) (rows : List (AuditRow Json))
      → map (restored codec) (select (λ r. r.case_id == case_id) rows)
        ≡ select (λ e. e.case_id == case_id) (map (restored codec) rows)
  select-held case_id [] = refl
  select-held case_id (r ∷ rows) = elim (Bool-cases (r.case_id == case_id)) [
    | inl e ↦ rw e (ap (λ l. restored codec r ∷ l) (select-held case_id rows))
    | inr e ↦ rw e (select-held case_id rows)
  ]

  -- The rows that the SELECT answers are all events.
  validate_rows-columns :
      (rows : List (AuditRow Json))
      → validate_rows codec (map columns rows) ≡ value (map (restored codec) rows)
  unfolding validate_rows columns_event
  validate_rows-columns [] = refl
  validate_rows-columns (r ∷ rows) = rw (validate_rows-columns rows) refl

  selected-eq :
      (case_id : String) (rows all : List (AuditRow Json))
      → Ascending Earlier rows
      → Ascending Earlier all
      → ((r : AuditRow Json) → Memᴰ r rows → Memᴰ r all × ((r.case_id == case_id) ≡ true))
      → ((r : AuditRow Json) → Memᴰ r all → (r.case_id == case_id) ≡ true → Memᴰ r rows)
      → rows ≡ select (λ r. r.case_id == case_id) all
  selected-eq case_id rows all a b f g =
      let p = λ (r : AuditRow Json). r.case_id == case_id in
      Ascending-unique Earlier Earlier-asym rows (select p all) a (Ascending-select Earlier p all b)
        (λ r m. let (n, e) = f r m in Mem-select p r all n e)
        (λ r m. let (n, e) = select-Mem p r all m in g r n e)

  -- What the sink answers for a case: the events of the case that the table holds, in the order in
  -- which they were written, or an exception.
  pub events_lem :
      (case_id : String) (w : W)
      → Ascending Earlier (table w)
      → ((exc : Exception) × ((sink.events case_id w).0 ≡ raised exc))
        ⊎ ((sink.events case_id w).0 ≡ value (select (λ e. e.case_id == case_id) (held w)))
  unfolding postgres
  events_lem case_id w h = elim (db.selects case_id w) [
    | inl (exc, e) ↦ inl (exc, ap (fetched codec) e)
    | inr (rows, e, a, f, g) ↦ inr (
        ap (fetched codec) e
        ∙ validate_rows-columns rows
        ∙ ap (λ l. value (map (restored codec) l)) (selected-eq case_id rows (table w) a h f g)
        ∙ ap value (select-held case_id (table w)))
  ]
