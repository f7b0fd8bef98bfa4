-- ===== src/Sync/Batches.antt =====
-- build_batches and the wire format of a batch (collector/sync.py).
pub mod Wire
pub mod Steps
pub mod Bounds
pub mod Contents
use hermes_flight_recorder.Base.{
  ltb, leb, eqb, if◌then◌else◌, ltb→lt, lt→ltb, le→ltb, leb→le, Bool-cases, Option-cases, length,
  take, drop, concat, All, any, keep, length-append, take-append-drop, length-take-le, All-append,
  All-left, All-right, All-map, ℤ, pos, negsuc, pos_part, neg_part, ◌+ℤ◌, ◌-ℤ◌, ◌≤ℤ◌, ◌<ℤ◌, le_int,
  lt_int, eq_int, max_int, eq_of_parts, <ℤ_trans, str_nat, int_nat, int_nat-str_nat, str_int,
  int_text, int_text-str_int, ℕ, zero, suc, ◌+◌, ◌-◌, ◌*◌, ◌/◌, ◌%◌, ◌^◌, ◌≤◌, ◌<◌, compare,
  Ordering, min, max, Char, code, String, ◌≡◌, refl, sym, ap, ◌∙◌, subst, fun_ext, ◌≢◌, ◌↔◌, ◌⊎◌,
  inl, inr, Bool, true, false, ◌&&◌, ◌||◌, not, Option, none, some, List, [], ◌∷◌, ◌++◌, map,
  append-nil, append_assoc, arith, ◌==◌, eq_iff, eq_refl,
}
use hermes_flight_recorder.Value.{
  Value, text, array, object, Items, nil, cons, Fields, end, field, find, as_text, as_integer,
}
use hermes_flight_recorder.Value.Json.{Bytes, dumps}
use hermes_flight_recorder.Result.{
  Result, ok, err, ◌>>=◌, ◌>>◌, require, or_raise, key_error, sync_error, value_error,
}
use hermes_flight_recorder.Envelope.{validate}

abbrev pub max_ingest_batch_bytes : ℕ
max_ingest_batch_bytes = 4 * 1024 * 1024

-- DEFAULT_MAX_RECORDS, DEFAULT_MAX_BYTES
abbrev pub default_max_records : ℕ
default_max_records = 500

abbrev pub default_max_bytes : ℕ
default_max_bytes = 1024 * 1024

pub to_items : List Fields → Items
to_items [] = nil
to_items (r ∷ rs) = cons (object r) (to_items rs)

-- _batch(records), as the value that is serialized
pub batch_value : List Fields → Value
batch_value records =
    object (field "protocol_version" (text "1") (field "records" (array (to_items records)) end))

pub empty_batch_wire : Bytes
unfolding batch_value to_items dumps
empty_batch_wire = dumps (batch_value [])

-- _EMPTY_BATCH_WIRE[:-2] and _EMPTY_BATCH_WIRE[-2:]
pub wire_prefix : Bytes
unfolding empty_batch_wire
wire_prefix = take (length empty_batch_wire - 2) empty_batch_wire

pub wire_suffix : Bytes
unfolding empty_batch_wire
wire_suffix = drop (length empty_batch_wire - 2) empty_batch_wire

pub record_json : Fields → Bytes
unfolding dumps
record_json r = dumps (object r)

-- b",".join(parts)
pub join_parts : List Bytes → Bytes
join_parts [] = []
join_parts (p ∷ []) = p
join_parts (p ∷ q ∷ ps) = p ++ 44 ∷ join_parts (q ∷ ps)

-- A batch with its cached wire bytes.
pub record Batch : Type 0 where
  pub records : List Fields
  pub wire_bytes : Bytes

unfoldable pub preserialized : List Fields → List Bytes → Batch
unfolding join_parts wire_prefix wire_suffix
preserialized records parts = record {
  records = records;
  wire_bytes = wire_prefix ++ (join_parts parts ++ wire_suffix);
}

-- singleton_batch_size(record): nothing is cached, so the batch is serialized here
unfoldable pub singleton_batch_size : Fields → ℕ
unfolding batch_value to_items dumps
singleton_batch_size r = length (dumps (batch_value (r ∷ [])))

-- The limits of one pass, and the variables of the loop.
pub record Limits : Type 0 where
  pub max_records : ℕ
  pub max_bytes : ℕ

pub record Builder : Type 0 where
  pub current : List Fields
  pub current_parts : List Bytes
  pub current_bytes : ℕ
  pub installation_id : Option String
  pub previous_sequence : Option ℤ

abbrev pub start : Builder
start = record {
  current = [];
  current_parts = [];
  current_bytes = 0;
  installation_id = none;
  previous_sequence = none;
}

-- One installation, and a sequence above the previous one.
abbrev pub same_installation : Option String → String → Bool
same_installation none id = true
same_installation (some expected) id = id == expected

abbrev pub follows : Option ℤ → ℤ → Bool
follows none sequence = true
follows (some previous) sequence = not (le_int sequence previous)

-- The checks of the loop's body, up to the part's size; the result is the record's sequence.
pub admit : Builder → Fields → Result (String × ℤ)
admit b r = do
  checked ← validate false (object r)
  id ← or_raise key_error (as_text (find "installation_id" r))
  require (same_installation b.installation_id id) sync_error
  sequence ← or_raise key_error (as_integer (find "producer_sequence" r))
  require (follows b.previous_sequence sequence) sync_error
  require (leb (length empty_batch_wire + length (record_json r)) max_ingest_batch_bytes) sync_error
  ok (id, sequence)

abbrev pub is_empty : List Fields → Bool
is_empty [] = true
is_empty (r ∷ rs) = false

-- current and (len(current) >= max_records or grown_bytes > target_bytes)
pub is_full : Limits → Builder → Bytes → Bool
is_full l b part =
    not (is_empty b.current)
    && (leb l.max_records (length b.current)
        || ltb (min l.max_bytes max_ingest_batch_bytes) (b.current_bytes + length part + 1))

-- The loop's variables after a record: it starts a batch, or joins the current one.
pub restart : Fields → String × ℤ → Builder
restart r (id, sequence) = record {
  current = r ∷ [];
  current_parts = record_json r ∷ [];
  current_bytes = length empty_batch_wire + length (record_json r);
  installation_id = some id;
  previous_sequence = some sequence;
}

pub join : Builder → Fields → String × ℤ → Builder
join b r (id, sequence) = record {
  current = b.current ++ r ∷ [];
  current_parts = b.current_parts ++ record_json r ∷ [];
  current_bytes =
      if is_empty b.current
      then length empty_batch_wire + length (record_json r)
      else b.current_bytes + length (record_json r) + 1;
  installation_id = some id;
  previous_sequence = some sequence;
}

-- What the generator yields, and how it ends: by returning or by raising.
abbrev pub Yields : Type 0
Yields = List Batch × Result (Unit {0})

abbrev pub emit : Batch → Yields → Yields
emit batch (batches, outcome) = (batch ∷ batches, outcome)

pub finish : Builder → Yields
finish b =
    if is_empty b.current
    then ([], ok tt)
    else (preserialized b.current b.current_parts ∷ [], ok tt)

pub build_from : Limits → Builder → List Fields → Yields
build_from l b [] = finish b
build_from l b (r ∷ rs) = elim (admit b r) [
  | err e ↦ ([], err e)
  | ok stamp ↦ elim (is_full l b (record_json r)) [
    | true ↦ emit (preserialized b.current b.current_parts) (build_from l (restart r stamp) rs)
    | false ↦ build_from l (join b r stamp) rs
  ]
]

-- build_batches(records, max_records=..., max_bytes=...), run to its end
unfoldable pub build_batches : Limits → List Fields → Yields
unfolding build_from finish admit is_full restart join preserialized record_json empty_batch_wire
build_batches l records =
    if ltb l.max_records 1 || ltb l.max_bytes 1
    then ([], err value_error)
    else build_from l start records
