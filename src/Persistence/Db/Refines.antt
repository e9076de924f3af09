-- ===== src/Persistence/Db/Refines.antt =====
-- PostgresAuditSink of persistence/db.py against InMemoryAuditSink of audit/sink.py.
use mathlib.Core.List.{Sublistᴰ, append-nil, append_assoc, map-append}
use mathlib.Core.List.Sublistᴰ.{slnil, cons, cons-cons}
use kyc_agent_nordvik.Prelude.{
  ℕ, ◌≡◌, refl, sym, ap, ◌∙◌, subst, ◌⊎◌, inl, inr, String, Bool, true, false, ◌&&◌, List, [], ◌∷◌,
  ◌++◌, map, ◌≤◌, if◌then◌else◌, arith,
}
use kyc_agent_nordvik.Effects.{Exception, Outcome, value, raised}
use kyc_agent_nordvik.Audit.Sink.{AuditEvent, AuditSink, in_memory}
use kyc_agent_nordvik.Persistence.Db.{Pool, Codec, postgres}
use kyc_agent_nordvik.Persistence.Db.Table.{AuditRow, restored, inserted_row, IsPostgres}
use kyc_agent_nordvik.Persistence.Db.Trail.{
  sink, held, through_json, InOrder, Wrote, emit_lem, emit-InOrder, events_lem,
}

abbrev returned : Outcome (Unit {0}) → Bool
returned (value u) = true
returned (raised exc) = false

both_true : (a b : Bool) → (a && b) ≡ true → b ≡ true
both_true a b h = ground arith

raised-returned :
    (o : Outcome (Unit {0})) (exc : Exception) (all : Bool)
    → o ≡ raised exc
    → (returned o && all) ≡ true
    → ⊥
raised-returned o exc all e t = cc (subst (λ o. (returned o && all) ≡ true) e t)

-- The world after these events were written one after the other, and whether every write returned.
module _ {W : Type 0} (sink : AuditSink W) where
  unfoldable pub write_all : List AuditEvent → W → W
  write_all [] w = w
  write_all (e ∷ es) w = write_all es (sink.emit e w).1

  unfoldable pub all_returned : List AuditEvent → W → Bool
  all_returned [] w = true
  all_returned (e ∷ es) w = returned (sink.emit e w).0 && all_returned es (sink.emit e w).1

write_all-memory : (events log : List AuditEvent) → write_all in_memory events log ≡ log ++ events
unfolding write_all in_memory
write_all-memory [] log = sym (append-nil log)
write_all-memory (e ∷ events) log =
    write_all-memory events (log ++ e ∷ []) ∙ append_assoc log (e ∷ []) events

-- The events whose write returned.
module _ {W : Type 0} (sink : AuditSink W) where
  unfoldable pub written : List AuditEvent → W → List AuditEvent
  written [] w = []
  written (e ∷ es) w =
      let rest = written es (sink.emit e w).1 in
      if returned (sink.emit e w).0 then e ∷ rest else rest

-- Each event is not earlier than `t`, nor than the one before it.
abbrev pub Since : ℕ → List AuditEvent → Type 0
Since t [] = Unit
Since t (e ∷ es) = (t ≤ e.ts) × Since e.ts es

last_time : ℕ → List AuditEvent → ℕ
last_time t [] = t
last_time t (e ∷ es) = last_time e.ts es

module _ {W Json : Type 0} (pool : Pool W Json) (codec : Codec Json)
    (table : W → List (AuditRow Json)) (db : IsPostgres pool table) where
  abbrev table_sink : AuditSink W
  table_sink = sink pool codec table db

  abbrev events_of : W → List AuditEvent
  events_of = held pool codec table db

  abbrev as_json : AuditEvent → AuditEvent
  as_json = through_json pool codec table db

  -- One write, and what the others appended.
  add_row :
      (e : AuditEvent) (w w' w'' : W) (id : ℕ) (rest : List AuditEvent)
      → table w' ≡ table w ++ inserted_row codec id e ∷ []
      → events_of w'' ≡ events_of w' ++ rest
      → events_of w'' ≡ events_of w ++ as_json e ∷ rest
  add_row e w w' w'' id rest g h =
      h
      ∙ ap (λ rows. map (restored codec) rows ++ rest) g
      ∙ ap (λ l. l ++ rest) (map-append (restored codec) (table w) (inserted_row codec id e ∷ []))
      ∙ append_assoc (events_of w) (as_json e ∷ []) rest

  -- What a sequence of writes leaves: all whose write returned, and perhaps others.
  abbrev Kept : List AuditEvent → W → W → List AuditEvent → Bool → Type 0
  Kept events w w' done all =
      (kept : List AuditEvent) × Sublistᴰ done kept
      × Sublistᴰ kept events
      × (events_of w' ≡ events_of w ++ map as_json kept)
      × (all ≡ true → kept ≡ events)

  kept_more :
      (e : AuditEvent) (done kept : List AuditEvent) (b : Bool)
      → Sublistᴰ done kept
      → Sublistᴰ (if b then e ∷ done else done) (e ∷ kept)
  kept_more e done kept true h = cons-cons refl h
  kept_more e done kept false h = cons h

  one_more :
      (e : AuditEvent) (events done : List AuditEvent) (w w' w'' : W) (o : Outcome (Unit {0}))
      (all : Bool)
      → Wrote pool codec table db e w o w'
      → Kept events w' w'' done all
      → Kept (e ∷ events) w w'' (if returned o then e ∷ done else done) (returned o && all)
  one_more e events done w w' w'' o all (inl ((exc, f), g)) (kept, d, s, h, k) = (
    kept,
    subst (λ o. Sublistᴰ (if returned o then e ∷ done else done) kept) (sym f) d,
    cons s,
    h ∙ ap (λ rows. map (restored codec) rows ++ map as_json kept) g,
    λ t. absurd (raised-returned o exc all f t),
  )
  one_more e events done w w' w'' o all (inr (id, f, g)) (kept, d, s, h, k) = (
    e ∷ kept,
    kept_more e done kept (returned o) d,
    cons-cons refl s,
    add_row e w w' w'' id (map as_json kept) g h,
    λ t. ap (λ l. e ∷ l) (k (both_true (returned o) all t)),
  )

  write_all-Kept :
      (events : List AuditEvent) (w : W)
      → Kept events w
          (write_all table_sink events w)
          (written table_sink events w)
          (all_returned table_sink events w)
  unfolding write_all all_returned written
  write_all-Kept [] w = ([], slnil, slnil, sym (append-nil (events_of w)), λ t. refl)
  write_all-Kept (e ∷ events) w =
      one_more e events _ w _ _ _ _ (emit_lem pool codec table db e w) (write_all-Kept events _)

  write_all-InOrder :
      (events : List AuditEvent) (w : W) (t : ℕ)
      → InOrder pool codec table db w t
      → Since t events
      → InOrder pool codec table db (write_all table_sink events w) (last_time t events)
  unfolding write_all last_time
  write_all-InOrder [] w t h s = h
  write_all-InOrder (e ∷ events) w t h (k, s) =
      write_all-InOrder events _ e.ts (emit-InOrder pool codec table db e w t h k) s

  -- Whatever the writes of a sequence of events answer, PostgresAuditSink leaves a table that stands
  -- for the events that it held before, followed by some of the new ones in their order, with their
  -- payloads as JSON gives them back; and all events whose write returned are among these.
  pub write_all-held :
      (events : List AuditEvent) (w : W)
      → (kept : List AuditEvent) × Sublistᴰ (written (postgres pool codec) events w) kept
        × Sublistᴰ kept events
        × (held pool codec table db (write_all (postgres pool codec) events w)
            ≡ held pool codec table db w ++ map as_json kept)
  write_all-held events w = let (kept, d, s, e, _) = write_all-Kept events w in (kept, d, s, e)

  -- If the rows are in order and none is later than a time, the new events are in the order of their
  -- times from this one on, and every write of them returns, then PostgresAuditSink afterwards
  -- answers for each case what InMemoryAuditSink answers that held the events of the table and was
  -- given the new ones, with their payloads as JSON gives them back; or it raises.
  pub postgres-Refines :
      (events : List AuditEvent) (w : W) (t : ℕ) (case_id : String)
      → InOrder pool codec table db w t
      → Since t events
      → all_returned (postgres pool codec) events w ≡ true
      → ((exc : Exception) × (((postgres pool codec).events case_id
              (write_all (postgres pool codec) events w)).0
            ≡ raised exc))
        ⊎ (((postgres pool codec).events case_id (write_all (postgres pool codec) events w)).0
            ≡ (in_memory.events case_id
                (write_all in_memory (map as_json events) (held pool codec table db w))).0)
  unfolding in_memory
  postgres-Refines events w t case_id h s r =
      let (kept, _, _, e, k) = write_all-Kept events w in
      let log =
        e
        ∙ ap (λ l. events_of w ++ map as_json l) (k r)
        ∙ sym (write_all-memory (map as_json events) (events_of w)) in
      elim (events_lem pool codec table db case_id _ (write_all-InOrder events w t h s).0) [
        | inl raises ↦ inl raises
        | inr f ↦ inr (f ∙ ap (λ l. (in_memory.events case_id l).0) log)
      ]
