-- ===== src/Tests/Database.antt =====
-- A database that keeps the rows in the order of their times and ids.
mod Served
use mathlib.Core.List.{Memᴰ, Sublistᴰ}
use kyc_agent_nordvik.Prelude.{
  ℕ, suc, ◌≤◌, ◌<◌, ◌≡◌, refl, sym, ap, ◌∙◌, ◌⊎◌, inl, inr, String, Bool, true, false, ◌&&◌, List,
  [], ◌∷◌, ◌++◌, All, All-append, All-map_of, map, ◌==◌, select, leb, Bool-cases, arith, not,
}
use kyc_agent_nordvik.Effects.{Exception, Outcome, value, raised, Call}
use kyc_agent_nordvik.Audit.Sink.{AuditEvent, Payload, in_memory, dispatched, degradation}
use kyc_agent_nordvik.Persistence.Db.{
  Value, text, time, json, Dict, Pool, Codec, postgres, select_events, insert_event,
}
use kyc_agent_nordvik.Persistence.Db.Order.{
  Ascending, Ascending-append, Ascending-select, Mem-select, select-Mem,
}
use kyc_agent_nordvik.Persistence.Db.Table.{AuditRow, Earlier, columns, parameters, IsPostgres}
use kyc_agent_nordvik.Persistence.Db.Refines.{
  write_all, all_returned, written, postgres-Refines, write_all-held,
}
use kyc_agent_nordvik.Persistence.Db.Trail.{held, through_json}
use kyc_agent_nordvik.Samples.{answer, broken}

abbrev Rows : Type 0
Rows = List (AuditRow Payload)

abbrev Older : (n t : ℕ) → AuditRow Payload → Type 0
Older n t r = (r.id < n) × (r.ts ≤ t)

-- The next id, the time of the last row, and rows in order.
abbrev Disk : Type 0
Disk = (n : ℕ) × (t : ℕ) × (rows : Rows) × Ascending Earlier rows × All (Older n t) rows

abbrev rows_of : Disk → Rows
rows_of (n, t, rows, a, h) = rows

leb-le : (m n : ℕ) → leb m n ≡ true → m ≤ n
leb-le m n h = ground arith

le_cases : (m n : ℕ) → m ≤ n → (m < n) ⊎ (m ≡ n)
le_cases m n h = ground arith

Older-Earlier :
    (n t : ℕ) (r s : AuditRow Payload) → t ≤ r.ts → Older n t s → Earlier s (record r { id = n })
Older-Earlier n t r s e (h, k) = elim (le_cases s.ts r.ts (omega (arith, e, k))) [
  | inl l ↦ inl l
  | inr f ↦ inr (f, h)
]

Older-later : (n t t' : ℕ) (r : AuditRow Payload) → t ≤ t' → Older n t r → Older (suc n) t' r
Older-later n t t' r e (h, k) = (omega (arith, h), omega (arith, e, k))

pushed : (d : Disk) (r : AuditRow Payload) → d.1 ≤ r.ts → Disk
pushed (n, t, rows, a, h) r e = (
  suc n,
  r.ts,
  rows ++ record r { id = n } ∷ [],
  Ascending-append Earlier rows (record r { id = n }) a
      (All-map_of (Older n t) (λ s. Earlier s (record r { id = n })) rows
        (λ s k. Older-Earlier n t r s e k) h),
  All-append (Older (suc n) r.ts) rows (record r { id = n } ∷ [])
      (All-map_of (Older n t) (Older (suc n) r.ts) rows (λ s k. Older-later n t r.ts s e k) h)
      ((omega arith, omega arith), tt),
)

insert_if :
    (d : Disk) (r : AuditRow Payload) (b : Bool)
    → leb d.1 r.ts ≡ b
    → Outcome (List (Dict Payload)) × Disk
insert_if d r true e = (value [], pushed d r (leb-le d.1 r.ts e))
insert_if d r false e = broken d

-- A row that is earlier than the last one is refused.
insert : AuditRow Payload → Disk → Outcome (List (Dict Payload)) × Disk
insert r d = insert_if d r (leb d.1 r.ts) refl

abbrev row : (case_id node event_type : String) → ℕ → Payload → AuditRow Payload
row case_id node event_type ts payload = record {
  id = 0;
  case_id = case_id;
  ts = ts;
  node = node;
  event_type = event_type;
  payload = payload;
}

data Request : Type 0 where
  reading : String → Request
  writing : AuditRow Payload → Request
  other : Request

-- The statements are told apart by their parameters.
request_of : List (Value Payload) → Request
request_of (text c ∷ []) = reading c
request_of (text c ∷ time t ∷ text n ∷ text e ∷ json p ∷ []) = writing (row c n e t p)
request_of values = other

execute : Request → Call Disk (List (Dict Payload))
execute (reading c) d = (value (map columns (select (λ r. r.case_id == c) (rows_of d))), d)
execute (writing r) d = insert r d
execute other d = (value [], d)

abbrev disk_pool : Pool Disk Payload
disk_pool = record {
  open_pool = answer tt;
  close_pool = answer tt;
  execute = λ statement values. execute (request_of values);
  setup_saver = answer tt;
}

-- JSON gives each payload back as it was.
abbrev plain_codec : Codec Payload
plain_codec = record {
  dumps = λ p. p;
  loads = λ p. p;
  invalid = record { type_name = "ValidationError"; message = "no event" };
}

abbrev Inserts : (d : Disk) (r : AuditRow Payload) → Outcome (List (Dict Payload)) × Disk → Type 0
Inserts d r (o, d') =
    ((exc : Exception) × (o ≡ raised exc) × (rows_of d' ≡ rows_of d))
    ⊎ ((id : ℕ) × All (λ s. s.id < id) (rows_of d)
        × (rows_of d' ≡ rows_of d ++ record r { id = id } ∷ []))

insert_if-Inserts :
    (d : Disk) (r : AuditRow Payload) (b : Bool) (e : leb d.1 r.ts ≡ b)
    → Inserts d r (insert_if d r b e)
unfolding insert_if pushed
insert_if-Inserts (n, t, rows, a, h) r true e =
    inr (n, All-map_of (Older n t) (λ s. s.id < n) rows (λ s k. k.0) h, refl)
insert_if-Inserts d r false e = inl (_, refl, refl)

disk-IsPostgres : IsPostgres disk_pool rows_of
unfolding execute insert insert_if request_of
disk-IsPostgres = record {
  inserts = λ r d. insert_if-Inserts d (record r { id = 0 }) _ refl;
  selects = λ case_id (n, t, rows, a, h). inr (
    select (λ r. r.case_id == case_id) rows,
    refl,
    Ascending-select Earlier (λ r. r.case_id == case_id) rows a,
    λ r m. select-Mem (λ r. r.case_id == case_id) r rows m,
    λ r m e. Mem-select (λ r. r.case_id == case_id) r rows m e,
  );
}

abbrev first_event : AuditEvent
first_event = record {
  case_id = "case-1";
  ts = 5;
  node = "orchestrator";
  event_type = "extraction_dispatched";
  payload = dispatched ("d1" ∷ []);
}

abbrev second_event : AuditEvent
second_event = record {
  case_id = "case-2";
  ts = 8;
  node = "handle_error";
  event_type = "error";
  payload = degradation [] [];
}

abbrev two_events : List AuditEvent
two_events = first_event ∷ second_event ∷ []

abbrev empty_disk : Disk
empty_disk = (0, 0, [], tt, tt)

both_returned : all_returned (postgres disk_pool plain_codec) two_events empty_disk ≡ true
unfolding all_returned postgres execute insert insert_if request_of pushed
both_returned = refl

postgres-Refines_example :
    ((exc : Exception) × (((postgres disk_pool plain_codec).events "case-2"
          (write_all (postgres disk_pool plain_codec) two_events empty_disk)).0
        ≡ raised exc))
    ⊎ (((postgres disk_pool plain_codec).events "case-2"
          (write_all (postgres disk_pool plain_codec) two_events empty_disk)).0
        ≡ (in_memory.events "case-2" (write_all in_memory two_events [])).0)
postgres-Refines_example =
    postgres-Refines disk_pool plain_codec rows_of disk-IsPostgres two_events empty_disk 0 "case-2"
      (tt, tt) (omega arith, (omega arith, tt)) both_returned

abbrev held_events : Disk → List AuditEvent
held_events = held disk_pool plain_codec rows_of disk-IsPostgres

write_all-held_example :
    (kept : List AuditEvent) × Sublistᴰ
      (written (postgres disk_pool plain_codec) two_events empty_disk)
      kept
    × Sublistᴰ kept two_events
    × (held_events (write_all (postgres disk_pool plain_codec) two_events empty_disk)
        ≡ held_events empty_disk
          ++ map (through_json disk_pool plain_codec rows_of disk-IsPostgres) kept)
write_all-held_example =
    write_all-held disk_pool plain_codec rows_of disk-IsPostgres two_events empty_disk
