-- ===== src/Sync/Deliver/Memory.antt =====
-- InMemoryTransport.send (collector/sync.py): a sink that stores each event_id once.
pub mod Up
use hermes_flight_recorder.Base.{
  Bool-cases, sym, inl, inr, map, Bool, ◌||◌, ◌==◌, eq_refl, if◌then◌else◌, length, All, ℤ, pos,
  max_int, ℕ, ◌+◌, String, ◌≡◌, ◌∙◌, refl, true, none, some, List, [], ◌∷◌, ◌++◌, arith,
}
use hermes_flight_recorder.Value.{Fields, find, as_text, as_integer}
use hermes_flight_recorder.Result.{Result, ok}
use hermes_flight_recorder.Envelope.Vocabulary.{contains}
use hermes_flight_recorder.Sync.Batches.{Batch}
use hermes_flight_recorder.Sync.Deliver.{Ack}

pub record Memory : Type 0 where
  pub batches : List Batch
  pub records : List Fields
  pub event_ids : List String
  pub high_water : ℤ
  pub key_batches : List Batch
  pub keys : List Fields
  pub key_ids : List (String × String)

abbrev pub empty : Memory
empty = record {
  batches = [];
  records = [];
  event_ids = [];
  high_water = pos 0;
  key_batches = [];
  keys = [];
  key_ids = [];
}

-- The counters of one send.
pub record Tally : Type 0 where
  pub memory : Memory
  pub accepted : ℕ
  pub duplicates : ℕ

-- record["event_id"] and record["producer_sequence"]: `send` gets validated batches, which have
-- both fields, so the KeyError for a missing field is not modelled.
pub event_id_of : Fields → String
event_id_of r = elim (as_text (find "event_id" r)) [ some s ↦ s | none ↦ "" ]

pub sequence_or_zero : Fields → ℤ
sequence_or_zero r = elim (as_integer (find "producer_sequence" r)) [ some i ↦ i | none ↦ pos 0 ]

-- The body of the loop over the batch's records.
pub accept : Fields → Tally → Tally
unfolding sequence_or_zero
accept r n =
    let id = event_id_of r in
    let m = n.memory in
    let high_water = max_int m.high_water (sequence_or_zero r) in
    if contains id m.event_ids
    then record n { memory = record m { high_water = high_water }; duplicates = n.duplicates + 1 }
    else record n {
      memory = record m {
        records = m.records ++ r ∷ [];
        event_ids = id ∷ m.event_ids;
        high_water = high_water;
      };
      accepted = n.accepted + 1;
    }

pub accept_all : List Fields → Tally → Tally
accept_all [] n = n
accept_all (r ∷ rs) n = accept_all rs (accept r n)

unfoldable pub send : Batch → Memory → Result Ack × Memory
unfolding accept_all accept event_id_of find contains
send batch m =
    let n = accept_all batch.records (record {
      memory = record m { batches = m.batches ++ batch ∷ [] };
      accepted = 0;
      duplicates = 0;
    }) in
    (
      ok (record {
        accepted = pos n.accepted;
        duplicates = pos n.duplicates;
        high_water = n.memory.high_water;
      }),
      n.memory,
    )

-- The event_id is that of a record in the ledger.
abbrev pub is_recorded : Memory → String → Bool
is_recorded m id = contains id (map event_id_of m.records)

-- The index `event_ids` has the identities of the ledger.
abbrev pub IsIndexed : Memory → Type 0
IsIndexed m = (id : String) → contains id m.event_ids ≡ is_recorded m id

pub accept-high_water :
    (r : Fields) (n : Tally)
    → (accept r n).memory.high_water ≡ max_int n.memory.high_water (sequence_or_zero r)
unfolding accept
accept-high_water r n = ground arith

accept_counts :
    (r : Fields) (n : Tally)
    → (accept r n).accepted + (accept r n).duplicates ≡ n.accepted + n.duplicates + 1
unfolding accept
accept_counts r n = ground arith

contains-append_one :
    (id : String) (rs : List Fields) (r : Fields)
    → contains id (map event_id_of (rs ++ r ∷ []))
      ≡ (event_id_of r == id) || contains id (map event_id_of rs)
unfolding contains
contains-append_one id [] r = ground arith
contains-append_one id (s ∷ rs) r = ground (arith, contains-append_one id rs r)

contains-cons :
    (id s : String) (ss : List String) → contains id (s ∷ ss) ≡ (s == id) || contains id ss
unfolding contains
contains-cons id s ss = ground arith

accept-IsIndexed : (r : Fields) (n : Tally) → IsIndexed n.memory → IsIndexed (accept r n).memory
unfolding accept
accept-IsIndexed r n h id = elim (Bool-cases (contains (event_id_of r) n.memory.event_ids)) [
  | inl q ↦ rw (q, accept) (h id)
  | inr q ↦
      rw
        (
          q,
          accept,
          contains-cons id (event_id_of r) n.memory.event_ids,
          contains-append_one id n.memory.records r,
          h id,
        )
        refl
]

accept_all-IsIndexed :
    (rs : List Fields) (n : Tally) → IsIndexed n.memory → IsIndexed (accept_all rs n).memory
unfolding accept_all
accept_all-IsIndexed [] n h = h
accept_all-IsIndexed (r ∷ rs) n h = accept_all-IsIndexed rs (accept r n) (accept-IsIndexed r n h)

-- What is recorded stays so.
accept-is_recorded :
    (id : String) (r : Fields) (n : Tally)
    → is_recorded n.memory id ≡ true
    → is_recorded (accept r n).memory id ≡ true
unfolding accept
accept-is_recorded id r n h = elim (Bool-cases (contains (event_id_of r) n.memory.event_ids)) [
  | inl q ↦ rw (q, accept) h
  | inr q ↦
      rw (q, accept, contains-append_one id n.memory.records r, h) (or_true (event_id_of r == id))
]
  where
    or_true : (b : Bool) → b || true ≡ true
    or_true b = ground arith

accept_all-is_recorded :
    (id : String) (rs : List Fields) (n : Tally)
    → is_recorded n.memory id ≡ true
    → is_recorded (accept_all rs n).memory id ≡ true
unfolding accept_all
accept_all-is_recorded id [] n h = h
accept_all-is_recorded id (r ∷ rs) n h =
    accept_all-is_recorded id rs (accept r n) (accept-is_recorded id r n h)

-- A record that was taken is recorded: it is new, or the index is right that it is not.
accept-records :
    (r : Fields) (n : Tally)
    → IsIndexed n.memory
    → is_recorded (accept r n).memory (event_id_of r) ≡ true
unfolding accept
accept-records r n h = elim (Bool-cases (contains (event_id_of r) n.memory.event_ids)) [
  | inl q ↦ rw (q, accept) (sym (h (event_id_of r)) ∙ q)
  | inr q ↦
      rw
        (q, accept, contains-append_one (event_id_of r) n.memory.records r, eq_refl (event_id_of r))
        refl
]

accept_all-records :
    (rs : List Fields) (n : Tally)
    → IsIndexed n.memory
    → All (λ r. is_recorded (accept_all rs n).memory (event_id_of r) ≡ true) rs
unfolding accept_all
accept_all-records [] n h = tt
accept_all-records (r ∷ rs) n h = (
  accept_all-is_recorded (event_id_of r) rs (accept r n) (accept-records r n h),
  accept_all-records rs (accept r n) (accept-IsIndexed r n h),
)

module _ (b : Batch) (m : Memory) where
  pub send-IsIndexed : IsIndexed m → IsIndexed (send b m).1
  unfolding send
  send-IsIndexed h = accept_all-IsIndexed b.records _ h

  pub send-records :
      IsIndexed m → All (λ r. is_recorded (send b m).1 (event_id_of r) ≡ true) b.records
  unfolding send
  send-records h = accept_all-records b.records _ h

  pub send-is_recorded :
      (id : String) → is_recorded m id ≡ true → is_recorded (send b m).1 id ≡ true
  unfolding send
  send-is_recorded id h = accept_all-is_recorded id b.records _ h

-- The acknowledgement covers every record of the batch.
pub accept_all_counts :
    (rs : List Fields) (n : Tally)
    → (accept_all rs n).accepted + (accept_all rs n).duplicates
      ≡ n.accepted + n.duplicates + length rs
unfolding accept_all
accept_all_counts [] n = omega arith
accept_all_counts (r ∷ rs) n = omega (arith, accept_all_counts rs (accept r n), accept_counts r n)

-- What an event leaves of the keys
abbrev pub keys_of : Memory → List Fields × List (String × String)
keys_of m = (m.keys, m.key_ids)

accept-keys : (r : Fields) (n : Tally) → keys_of (accept r n).memory ≡ keys_of n.memory
unfolding accept
accept-keys r n = ground arith

accept_all-keys :
    (rs : List Fields) (n : Tally) → keys_of (accept_all rs n).memory ≡ keys_of n.memory
unfolding accept_all
accept_all-keys [] n = refl
accept_all-keys (r ∷ rs) n = accept_all-keys rs (accept r n) ∙ accept-keys r n

-- An event changes no key.
pub send-keys : (b : Batch) (m : Memory) → keys_of (send b m).1 ≡ keys_of m
unfolding send
send-keys b m = accept_all-keys b.records _
