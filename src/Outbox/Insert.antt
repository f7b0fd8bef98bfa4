-- ===== src/Outbox/Insert.antt =====
-- _insert_event and the uniqueness constraints of the events table (collector/outbox.py).
use hermes_flight_recorder.Base.{
  eqb, any, pos, ℕ, String, Bool, false, ◌||◌, not, Option, none, some, [], ◌∷◌, ◌++◌, ◌==◌,
}
use hermes_flight_recorder.Value.{Value, integer, real, Fields, find, as_text}
use hermes_flight_recorder.Value.Sort.{sort_fields}
use hermes_flight_recorder.Result.{
  Result, ok, ◌>>=◌, ◌>>◌, require, or_raise, key_error, integrity_error,
}
use hermes_flight_recorder.Outbox.State.{Event, Outbox}

abbrev pub same_key : Option String → Option String → Bool
same_key (some j) (some k) = j == k
same_key _ _ = false

-- UNIQUE on event_id, dedup_key and producer_sequence; a NULL key is equal to none.
pub conflicts : Event → Event → Bool
conflicts e f =
    e.event_id == f.event_id
    || same_key e.dedup_key f.dedup_key
    || eqb e.producer_sequence f.producer_sequence

abbrev pub as_natural : Option Value → Option ℕ
as_natural (some (integer (pos n))) = some n
as_natural _ = none

abbrev pub as_real : Option Value → Option ℕ
as_real (some (real n)) = some n
as_real _ = none

-- The row of a record; the text of the envelope has sorted keys.
unfoldable pub row_of : Fields → Option String → Result Event
row_of r dedup_key = do
  event_id ← or_raise key_error (as_text (find "event_id" r))
  sequence ← or_raise key_error (as_natural (find "producer_sequence" r))
  recorded_at ← or_raise key_error (as_real (find "recorded_at" r))
  ok (record {
    event_id = event_id;
    producer_sequence = sequence;
    dedup_key = dedup_key;
    recorded_at = recorded_at;
    envelope = sort_fields r;
  })

unfoldable pub insert_event : Fields → Option String → Outbox → Result Outbox
unfolding row_of conflicts find sort_fields
insert_event r dedup_key o = do
  row ← row_of r dedup_key
  require (not (any (conflicts row) o.events)) integrity_error
  ok (record o { events = o.events ++ row ∷ [] })
