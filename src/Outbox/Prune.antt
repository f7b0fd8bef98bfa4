-- ===== src/Outbox/Prune.antt =====
-- prune_delivered and the tombstones it leaves (collector/outbox.py). The sizes of the database
-- and the outcome of VACUUM belong to SQLite: they are the argument `storage`. A row of the
-- table retention_prune is the event it names; rows are told apart by their sequence, which is
-- unique as rowid_pk is. The batches of 1,000 rows insert the same rows.
pub mod Rows
pub mod Keeps
pub mod Budget
pub mod Dedup
use hermes_flight_recorder.Base.{
  ltb, leb, eqb, if◌then◌else◌, ltb→lt, lt→ltb, le→ltb, leb→le, Bool-cases, Option-cases, length,
  take, drop, concat, All, any, keep, length-append, take-append-drop, length-take-le, All-append,
  All-left, All-right, All-map, All-apply, keep-true, keep-false, cons-injective, ℤ, pos, negsuc,
  pos_part, neg_part, ◌+ℤ◌, ◌-ℤ◌, ◌≤ℤ◌, ◌<ℤ◌, le_int, lt_int, eq_int, max_int, eq_of_parts,
  <ℤ_trans, str_nat, int_nat, int_nat-str_nat, str_int, int_text, int_text-str_int, ℕ, zero, suc,
  ◌+◌, ◌-◌, ◌*◌, ◌/◌, ◌%◌, ◌^◌, ◌≤◌, ◌<◌, compare, Ordering, min, max, Char, code, String, ◌≡◌,
  refl, sym, ap, ◌∙◌, subst, fun_ext, ◌≢◌, ◌↔◌, ◌⊎◌, inl, inr, Bool, true, false, ◌&&◌, ◌||◌, not,
  Option, none, some, List, [], ◌∷◌, ◌++◌, map, append-nil, append_assoc, arith, ◌==◌, eq_iff,
  eq_refl,
}
use hermes_flight_recorder.Value.{
  Value, null, integer, text, object, Fields, end, field, find, put, as_object, not_null,
}
use hermes_flight_recorder.Result.{
  Error, Result, ok, err, ◌>>=◌, ◌>>◌, require, or_raise, value_error, attribute_error,
  integrity_error,
}
use hermes_flight_recorder.Exec.{Exec}
use hermes_flight_recorder.Outbox.State.{Event, Tombstone, Outbox, order_by, event_bytes}
use hermes_flight_recorder.Outbox.Insert.{same_key}

abbrev retention_payload_keys : List String
retention_payload_keys =
    "message_row_id" ∷ "model" ∷ "task" ∷ "execution_id" ∷ "board" ∷ "task_id" ∷ "run_id" ∷ []

copy_present : List String → Fields → Fields → Fields
copy_present [] from r = r
copy_present (key ∷ names) from r = elim (find key from) [
  | none ↦ copy_present names from r
  | some v ↦ copy_present names from (put key v r)
]

copy_set : List String → Fields → Fields → Fields
copy_set [] from r = r
copy_set (key ∷ names) from r = elim (find key from) [
  | none ↦ copy_set names from r
  | some v ↦ if not_null (some v) then copy_set names from (put key v r) else copy_set names from r
]

or_null : Option Value → Value
or_null none = null
or_null (some v) = v

-- record.get("payload", {}), on which the code calls get
payload_of : Fields → Result Fields
payload_of r = elim (find "payload" r) [
  | none ↦ ok end
  | some v ↦ or_raise attribute_error (as_object (some v))
]

-- _retention_summary(record, sequence)
unfoldable pub retention_summary : Fields → ℕ → Result Fields
unfolding copy_present copy_set or_null payload_of find put
retention_summary r sequence = do
  payload ← payload_of r
  let summary_payload =
        copy_present retention_payload_keys payload
          (field "event_type" (or_null (find "event_type" payload)) end) in
      ok (
        copy_set ("session_id" ∷ "invocation_id" ∷ []) r (
          field "producer_sequence" (integer (pos sequence))
            (field "payload" (object summary_payload) end)))

-- The primary key and the UNIQUE dedup_key of retention_tombstones
pub clashes : Tombstone → Tombstone → Bool
clashes t u = eqb t.producer_sequence u.producer_sequence || same_key t.dedup_key u.dedup_key

pub tombstone_of : Event → Result Tombstone
tombstone_of e = do
  summary ← retention_summary e.envelope e.producer_sequence
  ok (record {
    producer_sequence = e.producer_sequence;
    event_id = e.event_id;
    dedup_key = e.dedup_key;
    recorded_at = e.recorded_at;
    summary = summary;
  })

-- _store_retention_tombstones() and _insert_retention_tombstones(rows)
unfoldable pub store_tombstones : List Event → List Tombstone → Result (List Tombstone)
unfolding tombstone_of clashes retention_summary
store_tombstones [] ts = ok ts
store_tombstones (e ∷ es) ts = do
  t ← tombstone_of e
  require (not (any (clashes t) ts)) integrity_error
  store_tombstones es (ts ++ t ∷ [])

abbrev pub is_delivered : ℤ → Event → Bool
is_delivered cursor e = le_int (pos e.producer_sequence) cursor

-- recorded_at < older_than, where there is an age policy
abbrev pub is_expired : Option ℤ → Event → Bool
is_expired none e = false
is_expired (some cutoff) e = lt_int (pos e.recorded_at) cutoff

abbrev pub by_age : ℤ → Option ℤ → Event → Bool
by_age cursor older_than e = is_delivered cursor e && is_expired older_than e

abbrev pub by_size : ℤ → Option ℤ → Event → Bool
by_size cursor older_than e = is_delivered cursor e && not (is_expired older_than e)

unfoldable pub total_bytes : List Event → ℕ
total_bytes [] = 0
total_bytes (e ∷ es) = event_bytes e + total_bytes es

-- The loop over size_candidates: rows are taken until what remains fits.
pub oldest_first : ℕ → ℕ → List Event → List Event
oldest_first max_bytes remaining [] = []
oldest_first max_bytes remaining (e ∷ es) =
    let left = remaining - event_bytes e in
    let rest = oldest_first max_bytes left es in e ∷ (if leb left max_bytes then [] else rest)

abbrev pub sequence_of : Event → ℕ
sequence_of e = e.producer_sequence

pub over_budget : Option ℕ → ℤ → Option ℤ → ℕ → List Event → List Event
over_budget none cursor older_than remaining es = []
over_budget (some max_bytes) cursor older_than remaining es =
    if ltb max_bytes remaining
    then oldest_first max_bytes remaining
        (order_by sequence_of (keep (by_size cursor older_than) es))
    else []

-- The rows of retention_prune
unfoldable pub victims : ℤ → Option ℤ → Option ℕ → List Event → List Event
unfolding over_budget oldest_first order_by
victims cursor older_than max_bytes es =
    let expired = keep (by_age cursor older_than) es in
    expired ++ over_budget max_bytes cursor older_than (total_bytes es - total_bytes expired) es

-- rowid_pk IN (SELECT rowid_pk FROM retention_prune)
pub is_in : List Event → Event → Bool
is_in vs e = any (λ v. eqb v.producer_sequence e.producer_sequence) vs

abbrev pub is_kept : List Event → Event → Bool
is_kept vs e = not (is_in vs e)

lowest : List Event → Option ℕ
lowest [] = none
lowest (e ∷ es) = elim (lowest es) [
  | none ↦ some e.producer_sequence
  | some n ↦ some (if leb e.producer_sequence n then e.producer_sequence else n)
]

highest : List Event → Option ℕ
highest [] = none
highest (e ∷ es) = elim (highest es) [
  | none ↦ some e.producer_sequence
  | some n ↦ some (if leb n e.producer_sequence then e.producer_sequence else n)
]

pub record Storage : Type 0 where
  pub bytes_before : ℕ
  pub bytes_after : ℕ
  pub reclaim_error : Option String

pub record PruneResult : Type 0 where
  pub pruned_count : ℕ
  pub oldest_sequence : Option ℕ
  pub newest_sequence : Option ℕ
  pub event_bytes_removed : ℕ
  pub event_bytes_before : ℕ
  pub event_bytes_after : ℕ
  pub database_bytes_reclaimed : ℕ
  pub delivery_cursor : ℤ
  pub space_reclaim_error : Option String

-- The statements inside the transaction
unfoldable pub remove : List Event → Outbox → Result Outbox
unfolding store_tombstones is_in order_by
remove [] o = ok o
remove (v ∷ vs) o = do
  tombstones ← store_tombstones (order_by sequence_of (keep (is_in (v ∷ vs)) o.events)) o.tombstones
  ok (record o { events = keep (is_kept (v ∷ vs)) o.events; tombstones = tombstones })

-- max(0, before - after) is `-` on the natural numbers.
pub summary_of : ℤ → Bool → Storage → List Event → Outbox → PruneResult
unfolding lowest highest
summary_of cursor vacuum storage vs o = record {
  pruned_count = length vs;
  oldest_sequence = lowest vs;
  newest_sequence = highest vs;
  event_bytes_removed = total_bytes vs;
  event_bytes_before = total_bytes o.events;
  event_bytes_after = total_bytes o.events - total_bytes vs;
  database_bytes_reclaimed = storage.bytes_before - storage.bytes_after;
  delivery_cursor = cursor;
  space_reclaim_error = if not (eqb (length vs) 0) && vacuum then storage.reclaim_error else none;
}

pub check_arguments : ℤ → Option ℕ → Result (Unit {0})
check_arguments cursor none = require (le_int (pos 0) cursor) value_error
check_arguments cursor (some max_bytes) = do
  require (le_int (pos 0) cursor) value_error
  require (leb 1 max_bytes) value_error

-- COMMIT, or ROLLBACK and raise
pub settle : PruneResult → Outbox → Result Outbox → Result PruneResult × Outbox
settle result o (ok o') = (ok result, o')
settle result o (err e) = (err e, o)

-- prune_delivered(delivery_cursor, older_than=..., max_bytes=..., vacuum=...)
unfoldable pub prune_delivered : Storage → ℤ → Option ℤ → Option ℕ → Bool → Exec Outbox PruneResult
unfolding check_arguments settle summary_of
prune_delivered storage cursor older_than max_bytes vacuum o =
    elim (check_arguments cursor max_bytes) [
      | err e ↦ (err e, o)
      | ok _ ↦
          let vs = victims cursor older_than max_bytes o.events in
          settle (summary_of cursor vacuum storage vs o) o (remove vs o)
    ]
