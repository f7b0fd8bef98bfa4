-- ===== src/Sync/Deliver.antt =====
-- sync, delivery_cursor and _validate_ack (collector/sync.py), over any transport: `send` is
-- transport.send, from the transport's state to its answer and its next state.
pub mod Memory
pub mod Split
pub mod Safety
pub mod Frame
pub mod Reliable
use hermes_flight_recorder.Base.{
  ltb, leb, eqb, if◌then◌else◌, ltb→lt, lt→ltb, le→ltb, leb→le, Bool-cases, Option-cases, length,
  take, drop, concat, All, any, keep, length-append, take-append-drop, length-take-le, All-append,
  All-left, All-right, All-map, ℤ, pos, negsuc, pos_part, neg_part, ◌+ℤ◌, ◌-ℤ◌, ◌≤ℤ◌, ◌<ℤ◌, le_int,
  lt_int, eq_int, max_int, eq_of_parts, <ℤ_trans, str_nat, int_nat, int_nat-str_nat, str_int,
  int_text, int_text-str_int, ℕ, zero, suc, ◌+◌, ◌-◌, ◌*◌, ◌/◌, ◌%◌, ◌^◌, ◌≤◌, ◌<◌, compare,
  Ordering, min, max, Char, code, String, ◌≡◌, refl, sym, ap, ◌∙◌, subst, fun_ext, ◌≢◌, ◌↔◌, ◌⊎◌,
  inl, inr, Bool, true, false, ◌&&◌, ◌||◌, not, Option, none, some, List, [], ◌∷◌, ◌++◌, map,
  append-nil, append_assoc, arith, ◌==◌, eq_iff, eq_refl,
}
use hermes_flight_recorder.Value.{Fields, find, as_integer}
use hermes_flight_recorder.Result.{
  Result, ok, err, ◌>>=◌, ◌>>◌, require, or_raise, key_error, sync_error, value_error,
}
use hermes_flight_recorder.Outbox.State.{Outbox, get_cursor, set_cursor, iter_events}
use hermes_flight_recorder.Sync.Batches.{Batch, Limits, Yields, build_batches}

pub record Ack : Type 0 where
  pub accepted : ℤ
  pub duplicates : ℤ
  pub high_water : ℤ

pub record SyncResult : Type 0 where
  pub batches_sent : ℕ
  pub records_sent : ℕ
  pub delivery_cursor : ℤ
  pub producer_high_water : ℕ

-- SyncResult.pending
pub pending_of : SyncResult → ℤ
pending_of r = max_int (pos 0) (pos r.producer_high_water -ℤ r.delivery_cursor)

abbrev pub delivery_cursor_name : String
delivery_cursor_name = "delivery"

-- int(text or 0)
abbrev pub int_or_zero : Option String → Result ℤ
int_or_zero none = ok (pos 0)
int_or_zero (some s) = if s == "" then ok (pos 0) else or_raise value_error (int_text s)

unfoldable pub delivery_cursor : Outbox → Result ℤ
unfolding get_cursor
delivery_cursor o = int_or_zero (get_cursor delivery_cursor_name o)

-- records[-1]
abbrev pub last? : List Fields → Option Fields
last? [] = none
last? (r ∷ []) = some r
last? (r ∷ q ∷ rs) = last? (q ∷ rs)

unfoldable pub last_sequence : List Fields → Result ℤ
unfolding find
last_sequence records = do
  r ← or_raise key_error (last? records)
  or_raise key_error (as_integer (find "producer_sequence" r))

unfoldable pub validate_ack : Ack → Batch → Result (Unit {0})
unfolding last_sequence
validate_ack ack batch = do
  require (le_int (pos 0) ack.accepted && le_int (pos 0) ack.duplicates) sync_error
  require (eq_int (ack.accepted +ℤ ack.duplicates) (pos (length batch.records))) sync_error
  batch_high_water ← last_sequence batch.records
  require (le_int batch_high_water ack.high_water) sync_error

-- itertools.islice(batches, max_batches): the generator is not asked for more.
abbrev pub slice : Option ℕ → Yields → Yields
slice none y = y
slice (some n) (batches, outcome) =
    (take n batches, if leb n (length batches) then ok tt else outcome)

-- The batches of one pass: the events above the cursor, as far as max_batches lets the generator run.
pub pass_batches : Limits → Option ℕ → ℤ → Outbox → Yields
pass_batches l max_batches cursor o = slice max_batches (build_batches l (iter_events cursor o))

abbrev pub at_least_one : Option ℕ → Bool
at_least_one none = true
at_least_one (some n) = leb 1 n

-- The variables of the delivery loop.
pub record Delivery (T : Type 0) : Type 0 where
  pub outbox : Outbox
  pub transport : T
  pub cursor : ℤ
  pub batches_sent : ℕ
  pub records_sent : ℕ

module _ {T : Type 0} where
  pub begin : ℤ → Outbox → T → Delivery T
  begin cursor o t = record {
    outbox = o;
    transport = t;
    cursor = cursor;
    batches_sent = 0;
    records_sent = 0;
  }

  abbrev pub result_of : ℕ → Delivery T → SyncResult
  result_of high_water d = record {
    batches_sent = d.batches_sent;
    records_sent = d.records_sent;
    delivery_cursor = d.cursor;
    producer_high_water = high_water;
  }

  -- The loop's body after the transport's answer.
  pub confirm : Batch → Ack → Delivery T → Result (Delivery T)
  confirm batch ack d = do
    validate_ack ack batch
    batch_cursor ← last_sequence batch.records
    ok (record d {
      outbox = set_cursor delivery_cursor_name batch_cursor d.outbox;
      cursor = batch_cursor;
      batches_sent = d.batches_sent + 1;
      records_sent = d.records_sent + length batch.records;
    })

module _ {T : Type 0} (send : Batch → T → Result Ack × T) where
  pub deliver : List Batch → Delivery T → Result (Unit {0}) × Delivery T
  deliver [] d = (ok tt, d)
  deliver (batch ∷ rest) d =
      let (answer, t) = send batch d.transport in
      elim (answer >>= λ ack. confirm batch ack (record d { transport = t })) [
        | err e ↦ (err e, record d { transport = t })
        | ok d' ↦ deliver rest d'
      ]

  -- sync from a start cursor: the loop's error comes first, then the generator's.
  pub sync_from : Limits → Option ℕ → ℤ → Outbox → T → Result SyncResult × Delivery T
  sync_from l max_batches cursor o t =
      let (batches, outcome) = pass_batches l max_batches cursor o in
      let (sent, d) = deliver batches (begin cursor o t) in
      (do sent; outcome; ok (result_of o.high_water d), d)

  -- sync(outbox, transport, max_records=..., max_bytes=..., max_batches=...), which returns or
  -- raises, and leaves an outbox and a transport in either case.
  unfoldable pub sync : Limits → Option ℕ → Outbox → T → Result SyncResult × Outbox × T
  unfolding sync_from deliver confirm pass_batches begin
  sync l max_batches o t =
      elim (require (at_least_one max_batches) value_error >> delivery_cursor o) [
        | err e ↦ (err e, o, t)
        | ok cursor ↦ let (r, d) = sync_from l max_batches cursor o t in (r, d.outbox, d.transport)
      ]
