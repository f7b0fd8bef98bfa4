-- ===== src/Outbox/State.antt =====
-- The tables of the outbox and its meta values and cursors (collector/outbox.py).
-- One outbox is one installation: the installation_id columns, all written from the one cached
-- identity and always queried with it, are the field `installation_id`; the row of `seq` is
-- `high_water`, 0 where there is no row. `envelope` is the envelope_json column, as the value
-- that its text stands for. Rows stand in rowid order.
use hermes_flight_recorder.Base.{
  lt_int, pos, leb, if◌then◌else◌, length, keep, ℤ, str_int, ℕ, String, ◌≡◌, refl, ◌∙◌, Option,
  none, some, List, [], ◌∷◌, map, arith, ◌==◌, eq_iff, eq_refl,
}
use hermes_flight_recorder.Value.{object, Fields}
use Prim.Native.String.{◌++◌ as text_append}
use hermes_flight_recorder.Value.Json.{dumps}

pub record Event : Type 0 where
  pub event_id : String
  pub producer_sequence : ℕ
  pub dedup_key : Option String
  pub recorded_at : ℕ
  pub envelope : Fields

pub record Tombstone : Type 0 where
  pub producer_sequence : ℕ
  pub event_id : String
  pub dedup_key : Option String
  pub recorded_at : ℕ
  pub summary : Fields

pub record ContentKey : Type 0 where
  pub key_version : String
  pub operator_key_id : String
  pub wrapped_dek : String
  pub created_at : ℕ
  pub shipped_at : Option ℕ

pub record Outbox : Type 0 where
  pub installation_id : String
  pub high_water : ℕ
  pub events : List Event
  pub tombstones : List Tombstone
  pub content_keys : List ContentKey
  pub meta : List (String × String)

-- get_meta(key)
unfoldable pub lookup : String → List (String × String) → Option String
lookup key [] = none
lookup key ((k, v) ∷ rows) = if k == key then some v else lookup key rows

-- INSERT ... ON CONFLICT(key) DO UPDATE
unfoldable pub upsert : String → String → List (String × String) → List (String × String)
upsert key v [] = (key, v) ∷ []
upsert key v ((k, w) ∷ rows) = if k == key then (k, v) ∷ rows else (k, w) ∷ upsert key v rows

unfoldable pub get_meta : String → Outbox → Option String
get_meta key o = lookup key o.meta

unfoldable pub set_meta : String → String → Outbox → Outbox
set_meta key v o = record o { meta = upsert key v o.meta }

cursor_key : String → String
cursor_key name = text_append "cursor:" name

-- get_cursor(name), set_cursor(name, value)
unfoldable pub get_cursor : String → Outbox → Option String
unfolding cursor_key get_meta lookup
get_cursor name o = get_meta (cursor_key name) o

unfoldable pub set_cursor : String → ℤ → Outbox → Outbox
unfolding cursor_key set_meta upsert
set_cursor name i o = set_meta (cursor_key name) (str_int i) o

pub lookup-upsert :
    (j k : String) (v : String) (rows : List (String × String))
    → lookup j (upsert k v rows) ≡ (if k == j then some v else lookup j rows)
unfolding lookup upsert
lookup-upsert j k v [] = refl
lookup-upsert j k v ((i, w) ∷ rows) =
    ground (arith, eq_iff i j, eq_iff k j, eq_iff i k, lookup-upsert j k v rows)

-- A cursor that is set is read back.
pub get_cursor-set_cursor :
    (name : String) (i : ℤ) (o : Outbox) → get_cursor name (set_cursor name i o) ≡ some (str_int i)
unfolding get_cursor set_cursor get_meta set_meta
get_cursor-set_cursor name i o =
    lookup-upsert (cursor_key name) (cursor_key name) (str_int i) o.meta
    ∙ rw (eq_refl (cursor_key name))

-- ORDER BY producer_sequence
module _ {A : Type 0} (key : A → ℕ) where
  unfoldable pub insert_by : A → List A → List A
  insert_by x [] = x ∷ []
  insert_by x (y ∷ ys) = if leb (key x) (key y) then x ∷ y ∷ ys else y ∷ insert_by x ys

  unfoldable pub order_by : List A → List A
  unfolding insert_by
  order_by [] = []
  order_by (x ∷ xs) = insert_by x (order_by xs)

-- length(CAST(envelope_json AS BLOB))
unfoldable pub event_bytes : Event → ℕ
event_bytes e = length (dumps (object e.envelope))

-- iter_events(installation_id, after_sequence=...)
unfoldable pub iter_events : ℤ → Outbox → List Fields
unfolding order_by
iter_events after o =
    map (λ (e : Event). e.envelope)
      (order_by (λ (e : Event). e.producer_sequence)
        (keep (λ (e : Event). lt_int after (pos e.producer_sequence)) o.events))
