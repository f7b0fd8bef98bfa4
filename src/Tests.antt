-- ===== src/Tests.antt =====
-- Concrete runs of the model, and the theorems at concrete inputs.
mod Passes
mod Findings
use hermes_flight_recorder.Base.{
  Among, ◌<ℤ◌, leb, All, pos, ◌≤ℤ◌, lt_int, max_int, str_nat, int_nat, int_nat-str_nat, str_int, ℕ,
  ◌≤◌, ◌≡◌, refl, ◌↔◌, ◌⊎◌, true, false, ◌||◌, not, none, some, List, [], ◌∷◌, ◌++◌, arith,
}
use hermes_flight_recorder.Value.{
  find, put, integer, real, text, boolean, object, Fields, end, field,
}
use hermes_flight_recorder.Value.Json.{dumps}
use hermes_flight_recorder.Value.Sort.{sort_fields}
use hermes_flight_recorder.Result.{Error, Result, ok, err, retryable_error}
use hermes_flight_recorder.Envelope.{validate}
use hermes_flight_recorder.Envelope.Spec.{IsEnvelope, validate_iff}
use hermes_flight_recorder.Outbox.State.{
  Event, Outbox, set_meta, event_bytes, get_cursor, set_cursor, get_cursor-set_cursor, iter_events,
}
use hermes_flight_recorder.Outbox.Sound.{IsSound, count_events, count_tombstones}
use hermes_flight_recorder.Outbox.Append.{
  Process, append, append_new, find_event, find_tombstone, has_dedup_key,
}
use hermes_flight_recorder.Outbox.Append.Records.{Call, Scan, Sealed, stamp, event_type_of}
use hermes_flight_recorder.Outbox.Append.Atomic.{append-IsSound}
use hermes_flight_recorder.Outbox.Append.Once.{append-once}
use hermes_flight_recorder.Outbox.Prune.{
  Storage, prune_delivered, total_bytes, summary_of, victims, remove,
}
use hermes_flight_recorder.Outbox.Prune.Keeps.{prune_delivered-IsSound, prune_delivered-iter_events}
use hermes_flight_recorder.Outbox.Prune.Dedup.{prune_delivered-has_dedup_key}
use hermes_flight_recorder.Outbox.Prune.Budget.{prune_delivered-IsWithin, IsWithin}
use hermes_flight_recorder.Sync.Batches.{Limits, build_batches}
use hermes_flight_recorder.Sync.Batches.Bounds.{IsBounded, build_batches-IsBounded}
use hermes_flight_recorder.Sync.Batches.Contents.{build_batches-IsPrefixOf, batch_records}
use hermes_flight_recorder.Sync.Deliver.{sync, delivery_cursor}
use hermes_flight_recorder.Sync.Deliver.Safety.{IsDurable, IsCursorSafe, sync-IsCursorSafe}
use hermes_flight_recorder.Sync.Ledger.{new_ledger, send_to, Holds, send-IsDurable}
use hermes_flight_recorder.Transport.{CancelEvent, with_retry, retrying_send, push}
use hermes_flight_recorder.Transport.Retry.{retrying_send-IsDurable, with_retry-count, counted}
use hermes_flight_recorder.Transport.Push.{push-IsCursorSafe}
use hermes_flight_recorder.Retention.{RetentionConfig, maybe_prune, prune, last_auto_prune_key}
use hermes_flight_recorder.Retention.Safety.{maybe_prune-Leaves}
use hermes_flight_recorder.Retention.Rate.{maybe_prune-waits}
use hermes_flight_recorder.Watermark.{
  Watermark, read, advance, bounded_rows, lower_bound, is_within, read-advance, bounded_rows-covers,
}

-- A record as a capture source hands it over, and the stored one.
abbrev pub body_before : Fields → Fields
body_before rest = field "occurred_at" (real 7000000) (
    field "tenant_id" (text "t") (
      field "profile" (text "default") (
        field "runtime" (object end) (
          field "correlation_id" (text "c") (
            field "source" (text "hook") (
              field "capture_method" (text "hook") (
                field "payload" (object (field "event_type" (text "session.created") end))
                  (field "partial" (boolean false) rest))))))))

abbrev pub body : Fields
body = body_before end

abbrev pub stored_record : Fields
stored_record = body_before (
    field "schema_version" (text "1") (
      field "installation_id" (text "i") (
        field "event_id" (text "e1")
          (field "recorded_at" (real 8000000) (field "producer_sequence" (integer (pos 1)) end)))))

pub stored_record-valid : validate false (object stored_record) ≡ ok stored_record
unfolding validate
stored_record-valid = refl

validate_iff_example :
    (validate false (object stored_record) ≡ ok stored_record) ↔ IsEnvelope false stored_record
validate_iff_example = validate_iff false stored_record

-- An outbox before the first event.
abbrev pub fresh : Outbox
fresh = record {
  installation_id = "i";
  high_water = 0;
  events = [];
  tombstones = [];
  content_keys = [];
  meta = [];
}

pub fresh-IsSound : IsSound fresh
unfolding count_events count_tombstones
fresh-IsSound = record {
  ordered = tt;
  bounded = tt;
  stamped = tt;
  valid = tt;
  unbroken = λ s. ground arith;
}

abbrev pub process : Process
process = record { outbox = fresh; key_version = none; in_batch = false }

abbrev sealed : Sealed
sealed = record { ciphertext = "x"; nonce = "n"; hash = "h" }

abbrev pub call : Call
call = record {
  event_id = "e1";
  recorded_at = 8000000;
  new_key = record {
    key_version = "k1";
    operator_key_id = "o";
    wrapped_dek = "w";
    created_at = 8000000;
    shipped_at = none;
  };
  seal_content = λ _ _. sealed;
  chunk_id = λ _. "c1";
  seal_chunk = λ _ _ _. sealed;
  finding_id = "f1";
  finding_recorded_at = 8000000;
  seal_finding = λ _ _. sealed;
  content_hash = λ _. "h";
}

abbrev pub clean : Scan
clean = record { status = "complete"; match_count = 0; content = [] }

append-IsSound_example : IsSound (append call body none (some "d1") clean process).1.outbox
append-IsSound_example = append-IsSound call body none (some "d1") clean process refl fresh-IsSound

abbrev appended : Process
appended = (append call body none (some "d1") clean process).1

appended-ok : append call body none (some "d1") clean process ≡ (ok (stored_record, true), appended)
unfolding append append_new find_event find_tombstone str_int
appended-ok = refl

named : event_type_of (stamp call appended.outbox body) ≡ ok (some "session.created")
unfolding event_type_of stamp put find
named = refl

append-once_example :
    (stored : Fields) × (append call body none (some "d1") clean appended
      ≡ (ok (stored, false), appended))
append-once_example =
    append-once call body none "d1" clean process refl appended-ok call body none clean named

-- An outbox with one event.
abbrev pub row : Event
row = record {
  event_id = "e1";
  producer_sequence = 1;
  dedup_key = some "d1";
  recorded_at = 8000000;
  envelope = stored_record;
}

abbrev pub one : Outbox
one = record fresh { high_water = 1; events = row ∷ [] }

pub one-IsSound : IsSound one
unfolding count_events count_tombstones find
one-IsSound = record {
  ordered = (omega arith, tt);
  bounded = (omega arith, tt);
  stamped = (refl, tt);
  valid = (stored_record-valid, tt);
  unbroken = λ s. ground arith;
}

abbrev pub storage : Storage
storage = record { bytes_before = 8192; bytes_after = 4096; reclaim_error = none }

prune_delivered-IsSound_example :
    let o' = (prune_delivered storage (pos 1) none (some 10) true one).1 in
    IsSound o'
    × (o'.high_water ≡ one.high_water)
    × (o'.meta ≡ one.meta)
    × (o'.content_keys ≡ one.content_keys)
prune_delivered-IsSound_example =
    prune_delivered-IsSound storage (pos 1) none (some 10) true one one-IsSound

prune_delivered-iter_events_example :
    iter_events (pos 0) (prune_delivered storage (pos 0) none (some 10) true one).1
    ≡ iter_events (pos 0) one
prune_delivered-iter_events_example =
    prune_delivered-iter_events storage (pos 0) none (some 10) true one one-IsSound

-- The one event is pruned for a budget of ten bytes.
pruned : prune_delivered storage (pos 1) none (some 10) true one ≡ (
  ok (summary_of (pos 1) true storage (row ∷ []) one),
  (prune_delivered storage (pos 1) none (some 10) true one).1,
)
unfolding prune_delivered victims remove total_bytes event_bytes dumps str_int
pruned = refl

prune_delivered-IsWithin_example :
    IsWithin 10 (pos 1) (prune_delivered storage (pos 1) none (some 10) true one).1.events
prune_delivered-IsWithin_example =
    prune_delivered-IsWithin storage (pos 1) none 10 true one one-IsSound pruned

abbrev pub limits : Limits
limits = record { max_records = 2; max_bytes = 1000 }

build_batches-IsBounded_example :
    All (IsBounded limits) (build_batches limits (stored_record ∷ [])).0
build_batches-IsBounded_example = build_batches-IsBounded limits (stored_record ∷ [])

build_batches-IsPrefixOf_example :
    (rest : List Fields) × (batch_records (build_batches limits (stored_record ∷ [])).0 ++ rest
      ≡ stored_record ∷ [])
    × ((rest ≡ []) ⊎ ((e : Error) × ((build_batches limits (stored_record ∷ [])).1 ≡ err e)))
build_batches-IsPrefixOf_example = build_batches-IsPrefixOf limits (stored_record ∷ [])

pub one-cursor : delivery_cursor one ≡ ok (pos 0)
unfolding delivery_cursor get_cursor
one-cursor = refl

pub one-IsCursorSafe : IsCursorSafe Holds one new_ledger
one-IsCursorSafe = record {
  cursor = pos 0;
  stored = one-cursor;
  delivered = (λ h. absurd (omega (arith, h)), tt);
}

sync-IsCursorSafe_example :
    IsCursorSafe Holds
      (sync send_to limits none one new_ledger).1
      (sync send_to limits none one new_ledger).2
    × ((sync send_to limits none one new_ledger).1.events ≡ one.events)
sync-IsCursorSafe_example =
    sync-IsCursorSafe send_to Holds send-IsDurable limits none 0 one new_ledger one-IsSound.ordered
      one-IsSound.stamped one-IsCursorSafe

-- A transport that is asked to stop after its second attempt.
abbrev stopping : CancelEvent
stopping = record { is_set = λ attempt. false; waits = λ attempt. leb 2 attempt }

push-IsCursorSafe_example :
    let q = push (retrying_send send_to (some stopping) 5) limits none one new_ledger in
    IsCursorSafe Holds q.1 q.2 × (q.1.events ≡ one.events)
push-IsCursorSafe_example =
    push-IsCursorSafe send_to Holds send-IsDurable (some stopping) 5 limits none one new_ledger
      one-IsSound.ordered one-IsSound.stamped one-IsCursorSafe

retrying_send-IsDurable_example : IsDurable (retrying_send send_to (some stopping) 5) Holds
retrying_send-IsDurable_example =
    retrying_send-IsDurable send_to Holds (some stopping) 5 send-IsDurable

abbrev failing : ℕ → Result ℕ × ℕ
failing n = (err retryable_error, n)

with_retry-count_example : (with_retry none 5 (counted failing) (0, 7)).1.0 ≤ 5
with_retry-count_example = with_retry-count none 5 failing 7 (omega arith)

-- Five attempts are made.
with_retry-five : with_retry none 5 (counted failing) (0, 7) ≡ (err retryable_error, (5, 7))
unfolding with_retry
with_retry-five = refl

abbrev pub config : RetentionConfig
config = record {
  enabled = true;
  max_age_days = none;
  max_bytes = none;
  require_delivered = true;
  vacuum = "auto";
}

maybe_prune-Leaves_example :
    let o' = (maybe_prune str_nat int_nat storage config 10 100 one).1 in
    IsSound o' × (iter_events (pos 0) o' ≡ iter_events (pos 0) one)
maybe_prune-Leaves_example =
    maybe_prune-Leaves str_nat int_nat storage config 10 100 (pos 0) one one-cursor one-IsSound

first_prune : maybe_prune str_nat int_nat storage config 10 100 one ≡ (
  ok (some (summary_of (pos 0) true storage [] one)),
  set_meta last_auto_prune_key (str_nat 100) one,
)
unfolding maybe_prune prune prune_delivered victims remove delivery_cursor get_cursor
first_prune = refl

maybe_prune-waits_example :
    maybe_prune str_nat int_nat storage config 10 105
      (set_meta last_auto_prune_key (str_nat 100) one)
    ≡ (ok none, set_meta last_auto_prune_key (str_nat 100) one)
maybe_prune-waits_example =
    maybe_prune-waits str_nat int_nat storage config 10 100 105 one (int_nat-str_nat 100) refl
      (omega arith) first_prune (omega arith)

abbrev messages : Watermark
messages = record { name = "messages"; overlap = pos 2 }

read-advance_example :
    read messages (advance messages (pos 4) fresh) ≡ max_int (read messages fresh) (pos 4)
read-advance_example = read-advance messages (pos 4) fresh

abbrev table : List ℕ
table = 3 ∷ 5 ∷ []

abbrev itself : ℕ → ℕ
itself n = n

bounded_rows-covers_example :
    let (rows, high) = bounded_rows itself messages fresh table in
    All (λ x. read messages fresh <ℤ pos (itself x) → Among rows x) table
    × All (λ x. pos (itself x) ≤ℤ read messages (advance messages high fresh)) table
bounded_rows-covers_example = bounded_rows-covers itself messages fresh table

get_cursor-set_cursor_example :
    get_cursor "delivery" (set_cursor "delivery" (pos 3) fresh) ≡ some (str_int (pos 3))
get_cursor-set_cursor_example = get_cursor-set_cursor "delivery" (pos 3) fresh

one-has_dedup_key : has_dedup_key "d1" one ≡ true
unfolding has_dedup_key
one-has_dedup_key = refl

prune_delivered-has_dedup_key_example :
    has_dedup_key "d1" (prune_delivered storage (pos 1) none (some 10) true one).1 ≡ true
prune_delivered-has_dedup_key_example =
    prune_delivered-has_dedup_key storage (pos 1) none (some 10) true one "d1" one-IsSound
      one-has_dedup_key
