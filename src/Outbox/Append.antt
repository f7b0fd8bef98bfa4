-- ===== src/Outbox/Append.antt =====
-- _append and what it calls (collector/outbox.py): stamping, deduplication, encryption, content
-- chunks, the companion finding, and the transaction around them.
pub mod Records
pub mod Numbering
pub mod Sequence
pub mod Atomic
pub mod Once
use hermes_flight_recorder.Base.{
  ltb, leb, eqb, if◌then◌else◌, ltb→lt, lt→ltb, le→ltb, leb→le, Bool-cases, Option-cases, length,
  take, drop, concat, All, any, keep, length-append, take-append-drop, length-take-le, All-append,
  All-left, All-right, All-map, All-apply, keep-true, keep-false, cons-injective, ℤ, pos, negsuc,
  pos_part, neg_part, ◌+ℤ◌, ◌-ℤ◌, ◌≤ℤ◌, ◌<ℤ◌, le_int, lt_int, eq_int, max_int, eq_of_parts,
  <ℤ_trans, str_nat, int_nat, int_nat-str_nat, str_int, int_text, int_text-str_int, ℕ, zero, suc,
  ◌+◌, ◌-◌, ◌*◌, ◌/◌, ◌%◌, ◌^◌, ◌≤◌, ◌<◌, compare, Ordering, min, max, Char, code, String, ◌≡◌,
  refl, sym, ap, ◌∙◌, subst, fun_ext, ◌≢◌, ◌↔◌, ◌⊎◌, inl, inr, Bool, true, false, ◌&&◌, ◌||◌, not,
  Option, none, some, List, [], ◌∷◌, ◌++◌, map, append-nil, append_assoc, arith, ◌==◌, eq_iff,
  eq_refl,
}
use hermes_flight_recorder.Value.{
  Value, boolean, integer, real, text, object, Fields, end, field, find, put, update, as_text,
  as_object,
}
use hermes_flight_recorder.Value.Json.{Bytes, encode_utf8}
use hermes_flight_recorder.Result.{
  Error, Result, ok, err, require, or_raise, key_error, outbox_error,
}
use hermes_flight_recorder.Exec.{Exec, pure, lift, ◌>>=◌, ◌>>◌}
use hermes_flight_recorder.Envelope.{validate}
use hermes_flight_recorder.Sync.Batches.{max_ingest_batch_bytes, singleton_batch_size}
use hermes_flight_recorder.Outbox.State.{Event, Tombstone, ContentKey, Outbox}
use hermes_flight_recorder.Outbox.Insert.{insert_event, same_key}
use Records.{
  Call, Sealed, Scan, sealed_fields, seal_into, stamp, inline_size, chunk_records, chunked_parent,
  finding_record, event_type_of, skips_scan, Rows, plan_content,
}

-- The outbox with the state of its process: the key_version of the data key in memory, and
-- whether a batch() is open.
pub record Process : Type 0 where
  pub outbox : Outbox
  pub key_version : Option String
  pub in_batch : Bool

-- The stored record of a deduplication key: SELECT ... FROM events WHERE dedup_key=?
unfoldable pub find_event : String → List Event → Option Event
find_event key [] = none
find_event key (e ∷ es) = if same_key e.dedup_key (some key) then some e else find_event key es

unfoldable pub find_tombstone : String → List Tombstone → Option Tombstone
find_tombstone key [] = none
find_tombstone key (e ∷ es) =
    if same_key e.dedup_key (some key) then some e else find_tombstone key es

-- has_dedup_key(dedup_key)
unfoldable pub has_dedup_key : String → Outbox → Bool
unfolding find_event find_tombstone
has_dedup_key key o = elim (find_event key o.events) [
  | some e ↦ true
  | none ↦ elim (find_tombstone key o.tombstones) [ some e ↦ true | none ↦ false ]
]

-- The record with the identity that the tombstone kept.
pub pruned_identity : Fields → Tombstone → Fields
pruned_identity r t = put "recorded_at" (real t.recorded_at) (
    put "producer_sequence" (integer (pos t.producer_sequence))
      (put "event_id" (text t.event_id) r))

-- A deduplication hit, with the record that append() returns for it.
pub dedup_hit : Option String → Fields → Outbox → Option Fields
dedup_hit none r o = none
dedup_hit (some key) r o = elim (find_event key o.events) [
  | some e ↦ some e.envelope
  | none ↦ elim (find_tombstone key o.tombstones) [
    | some t ↦ some (pruned_identity r t)
    | none ↦ none
  ]
]

-- _current_dek(): the process's key_version, minted and recorded once. INSERT OR IGNORE keeps a
-- key_version that is there.
pub has_key : String → List ContentKey → Bool
has_key version [] = false
has_key version (k ∷ ks) = k.key_version == version || has_key version ks

pub current_key : Call → Exec Process String
current_key c p = elim p.key_version [
  | some version ↦ (ok version, p)
  | none ↦
      let o = p.outbox in
      let keys =
        if has_key c.new_key.key_version o.content_keys
        then o.content_keys
        else o.content_keys ++ c.new_key ∷ [] in
      (
        ok c.new_key.key_version,
        record p {
          outbox = record o { content_keys = keys };
          key_version = some c.new_key.key_version;
        },
      )
]

pub plan_rows : Call → Fields → Option Bytes → Exec Process Rows
plan_rows c r none p = (
  ok (record {
    chunks = [];
    parent = put "producer_sequence" (integer (pos (p.outbox.high_water + 1))) r;
  }),
  p,
)
plan_rows c r (some raw) p =
    (do
      version ← current_key c
      lift (
          plan_content c version
            (put "producer_sequence" (integer (pos (p.outbox.high_water + 1))) r) raw
            p.outbox.high_water))
      p

-- validate(record), and the size of the record as a batch of its own
pub check_record : Fields → Exec Process Unit
check_record r = do
  checked ← lift (validate false (object r))
  lift (require (leb (singleton_batch_size r) max_ingest_batch_bytes) outbox_error)

pub insert : Fields → Option String → Exec Process Unit
insert r dedup_key p = elim (insert_event r dedup_key p.outbox) [
  | err e ↦ (err e, p)
  | ok o ↦ (ok tt, record p { outbox = o })
]

pub insert_chunks : List Fields → Exec Process Unit
insert_chunks [] = pure tt
insert_chunks (chunk ∷ chunks) = do check_record chunk; insert chunk none; insert_chunks chunks

pub set_high_water : ℕ → Exec Process Unit
set_high_water n p = (ok tt, record p { outbox = record p.outbox { high_water = n } })

-- The finding that accompanies a record with matches; the result is the last sequence.
pub insert_finding : Call → Scan → Fields → ℕ → Exec Process ℕ
insert_finding c scan parent sequence = if eqb scan.match_count 0 then pure sequence else (do
  finding ← lift (finding_record c scan parent)
  let numbered = put "producer_sequence" (integer (pos (sequence + 1))) finding
  version ← current_key c
  let sealed = update numbered (sealed_fields version (c.seal_finding version scan.content))
  check_record sealed
  insert sealed none
  pure (sequence + 1))

-- The branch of a new record, up to the commit.
unfoldable pub append_new :
    Call → Fields → Option Bytes → Option String → Scan → Exec Process Fields
unfolding insert_finding insert_chunks insert check_record plan_rows plan_content current_key
    has_key set_high_water chunk_records chunked_parent seal_into inline_size finding_record
    sealed_fields put update singleton_batch_size validate insert_event
append_new c r content dedup_key scan p =
    (do
      rows ← plan_rows c r content
      let last = p.outbox.high_water + length rows.chunks + 1
      check_record rows.parent
      insert_chunks rows.chunks
      insert rows.parent dedup_key
      final ← insert_finding c scan rows.parent last
      set_high_water final
      pure rows.parent)
      p

-- Findings are not scanned again.
abbrev pub effective_scan : Option String → Scan → Scan
effective_scan event_type scan =
    if skips_scan event_type
    then record { status = "complete"; match_count = 0; content = [] }
    else scan

-- BEGIN IMMEDIATE ... COMMIT, or ROLLBACK and _forget_process_dek; inside a batch the open
-- transaction keeps what was written.
pub conclude : {A : Type 0} → Process → Result A × Process → Result A × Process
conclude p (ok a, p') = (ok a, p')
conclude p (err e, p') =
    if p.in_batch then (err e, p') else (err e, record p { key_version = none })

pub transaction : {A : Type 0} → Exec Process A → Exec Process A
unfolding conclude
transaction body p = conclude p (body p)

pub append_body : Call → Fields → Option Bytes → Option String → Scan → Exec Process (Fields × Bool)
append_body c r content dedup_key scan p = elim (dedup_hit dedup_key r p.outbox) [
  | some stored ↦ (ok (stored, false), p)
  | none ↦ (do stored ← append_new c r content dedup_key scan; pure (stored, true)) p
]

-- _append(record, content=..., dedup_key=..., return_stored=True): the record and whether a row is new
unfoldable pub append :
    Call → Fields → Option Bytes → Option String → Scan → Exec Process (Fields × Bool)
unfolding transaction conclude append_body dedup_hit pruned_identity stamp event_type_of skips_scan
append c r content dedup_key scan p =
    let stamped = stamp c p.outbox r in
    (do
      event_type ← lift (event_type_of stamped)
      transaction (append_body c stamped content dedup_key (effective_scan event_type scan)))
      p
