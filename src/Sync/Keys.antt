-- ===== src/Sync/Keys.antt =====
-- The wrapped-key channel: sync_content_keys, _build_key_batches and _validate_key_ack
-- (hermes_flight_recorder/collector/sync.py), iter_unshipped_content_keys and
-- mark_content_keys_shipped (hermes_flight_recorder/collector/outbox.py). `send_keys` is
-- transport.send_keys, and `now` is the clock in each call of mark_content_keys_shipped.
pub mod Shipped
pub mod Grouping
pub mod Memory
pub mod Frame
use hermes_flight_recorder.Base.{
  ltb, leb, eqb, if◌then◌else◌, ltb→lt, lt→ltb, le→ltb, leb→le, Bool-cases, Option-cases, length,
  take, drop, concat, All, any, keep, length-append, take-append-drop, length-take-le, All-append,
  All-left, All-right, All-map, All-apply, keep-true, keep-false, cons-injective, ℤ, pos, negsuc,
  pos_part, neg_part, ◌+ℤ◌, ◌-ℤ◌, ◌≤ℤ◌, ◌<ℤ◌, le_int, lt_int, eq_int, max_int, eq_of_parts,
  <ℤ_trans, str_nat, int_nat, int_nat-str_nat, str_int, int_text, int_text-str_int, ℕ, zero, suc,
  ◌+◌, ◌-◌, ◌*◌, ◌/◌, ◌%◌, ◌^◌, ◌≤◌, ◌<◌, compare, Ordering, min, max, Char, code, String, ◌≡◌,
  refl, sym, ap, ◌∙◌, subst, fun_ext, ◌≢◌, ◌↔◌, ◌⊎◌, inl, inr, Bool, true, false, ◌&&◌, ◌||◌, not,
  Option, none, some, List, [], ◌∷◌, ◌++◌, map, append-nil, append_assoc, arith, ◌==◌, eq_iff,
  eq_refl,
}
use Prim.Native.String.{compare as compare_texts}
use hermes_flight_recorder.Value.{Fields, end, field, text, find, as_text}
use hermes_flight_recorder.Value.Json.{Bytes}
use hermes_flight_recorder.Result.{
  Result, ok, err, ◌>>=◌, ◌>>◌, require, or_raise, key_error, sync_error, value_error,
}
use hermes_flight_recorder.Outbox.State.{ContentKey, Outbox}
use hermes_flight_recorder.Sync.Batches.{
  Batch, Yields, empty_batch_wire, record_json, preserialized, is_empty, emit, same_installation,
  max_ingest_batch_bytes,
}
use hermes_flight_recorder.Sync.Deliver.{slice, at_least_one}

-- ORDER BY created_at, key_version
abbrev text_le : String → String → Bool
text_le s t = elim (compare_texts s t) [ Ordering.gt ↦ false | _ ↦ true ]

is_before : ContentKey → ContentKey → Bool
is_before k l =
    ltb k.created_at l.created_at
    || (eqb k.created_at l.created_at && text_le k.key_version l.key_version)

pub insert_key : ContentKey → List ContentKey → List ContentKey
unfolding is_before
insert_key k [] = k ∷ []
insert_key k (l ∷ ls) = if is_before k l then k ∷ l ∷ ls else l ∷ insert_key k ls

pub order_keys : List ContentKey → List ContentKey
unfolding insert_key
order_keys [] = []
order_keys (k ∷ ks) = insert_key k (order_keys ks)

abbrev pub is_unshipped : ContentKey → Bool
is_unshipped k = elim k.shipped_at [ none ↦ true | some t ↦ false ]

-- The record that iter_unshipped_content_keys yields for a row
unfoldable pub key_record : String → ContentKey → Fields
key_record installation_id k = field "installation_id" (text installation_id) (
    field "key_version" (text k.key_version) (
      field "recipient_key_id" (text k.operator_key_id)
        (field "wrapped_dek" (text k.wrapped_dek) end)))

unfoldable pub iter_unshipped_content_keys : Outbox → List Fields
unfolding order_keys key_record
iter_unshipped_content_keys o =
    map (key_record o.installation_id) (order_keys (keep is_unshipped o.content_keys))

-- UPDATE content_keys SET shipped_at=? WHERE key_version=?
pub mark_one : ℕ → List ContentKey → String → List ContentKey
mark_one now ks version =
    map
      (λ (k : ContentKey).
        if k.key_version == version then record k { shipped_at = some now } else k)
      ks

pub mark_all : ℕ → List String → List ContentKey → List ContentKey
mark_all now [] ks = ks
mark_all now (version ∷ versions) ks = mark_all now versions (mark_one now ks version)

-- mark_content_keys_shipped(key_versions)
unfoldable pub mark_content_keys_shipped : ℕ → List String → Outbox → Outbox
unfolding mark_all mark_one
mark_content_keys_shipped now versions o = record o {
  content_keys = mark_all now versions o.content_keys;
}

-- The variables of _build_key_batches' loop
pub record KeyBuilder : Type 0 where
  pub installation_id : Option String
  pub current : List Fields
  pub current_parts : List Bytes
  pub current_bytes : ℕ

abbrev pub no_keys : KeyBuilder
no_keys = record { installation_id = none; current = []; current_parts = []; current_bytes = 0 }

pub admit_key : KeyBuilder → Fields → Result String
admit_key b r = do
  id ← or_raise key_error (as_text (find "installation_id" r))
  require (same_installation b.installation_id id) sync_error
  ok id

-- current and (len(current) >= max_records or grown_bytes > MAX_INGEST_BATCH_BYTES)
pub is_full : ℕ → KeyBuilder → Bytes → Bool
is_full max_records b part =
    not (is_empty b.current)
    && (leb max_records (length b.current)
        || ltb max_ingest_batch_bytes (b.current_bytes + length part + 1))

pub restart : Fields → String → KeyBuilder
restart r id = record {
  installation_id = some id;
  current = r ∷ [];
  current_parts = record_json r ∷ [];
  current_bytes = length empty_batch_wire + length (record_json r);
}

pub join : KeyBuilder → Fields → String → KeyBuilder
join b r id = record {
  installation_id = some id;
  current = b.current ++ r ∷ [];
  current_parts = b.current_parts ++ record_json r ∷ [];
  current_bytes =
      if is_empty b.current
      then length empty_batch_wire + length (record_json r)
      else b.current_bytes + length (record_json r) + 1;
}

pub finish_keys : KeyBuilder → Yields
finish_keys b =
    if is_empty b.current
    then ([], ok tt)
    else (preserialized b.current b.current_parts ∷ [], ok tt)

pub build_keys_from : ℕ → KeyBuilder → List Fields → Yields
build_keys_from max_records b [] = finish_keys b
build_keys_from max_records b (r ∷ rs) = elim (admit_key b r) [
  | err e ↦ ([], err e)
  | ok id ↦ elim (is_full max_records b (record_json r)) [
    | true ↦
        emit (preserialized b.current b.current_parts)
          (build_keys_from max_records (restart r id) rs)
    | false ↦ build_keys_from max_records (join b r id) rs
  ]
]

-- _build_key_batches(records, max_records=...), run to its end
unfoldable pub build_key_batches : ℕ → List Fields → Yields
unfolding build_keys_from finish_keys admit_key is_full restart join preserialized
build_key_batches max_records records =
    if ltb max_records 1 then ([], err value_error) else build_keys_from max_records no_keys records

pub record KeyAck : Type 0 where
  pub accepted : ℤ
  pub duplicates : ℤ

pub record KeySyncResult : Type 0 where
  pub batches_sent : ℕ
  pub keys_sent : ℕ

-- _validate_key_ack(ack, batch)
unfoldable pub validate_key_ack : KeyAck → Batch → Result (Unit {0})
validate_key_ack ack batch = do
  require (le_int (pos 0) ack.accepted && le_int (pos 0) ack.duplicates) sync_error
  require (eq_int (ack.accepted +ℤ ack.duplicates) (pos (length batch.records))) sync_error

-- record["key_version"] for each record of a batch
pub key_versions : List Fields → Result (List String)
key_versions [] = ok []
key_versions (r ∷ rs) = do
  version ← or_raise key_error (as_text (find "key_version" r))
  versions ← key_versions rs
  ok (version ∷ versions)

-- The variables of the delivery loop.
pub record Shipment (T : Type 0) : Type 0 where
  pub outbox : Outbox
  pub transport : T
  pub batches_sent : ℕ
  pub keys_sent : ℕ

module _ {T : Type 0} where
  -- The loop's body after the transport's answer
  pub confirm_keys : ℕ → Batch → KeyAck → Shipment T → Result (Shipment T)
  confirm_keys now batch ack s = do
    validate_key_ack ack batch
    versions ← key_versions batch.records
    ok (record s {
      outbox = mark_content_keys_shipped now versions s.outbox;
      batches_sent = s.batches_sent + 1;
      keys_sent = s.keys_sent + length batch.records;
    })

module _ {T : Type 0} (send_keys : Batch → T → Result KeyAck × T) (now : ℕ) where
  pub ship : List Batch → Shipment T → Result (Unit {0}) × Shipment T
  ship [] s = (ok tt, s)
  ship (batch ∷ rest) s =
      let (answer, t) = send_keys batch s.transport in
      elim (answer >>= λ ack. confirm_keys now batch ack (record s { transport = t })) [
        | err e ↦ (err e, record s { transport = t })
        | ok s' ↦ ship rest s'
      ]

  pub ship_pending : ℕ → Option ℕ → Outbox → T → Result KeySyncResult × Shipment T
  ship_pending max_records max_batches o t =
      let (batches, outcome) =
        slice max_batches (build_key_batches max_records (iter_unshipped_content_keys o)) in
      let (sent, s) =
        ship batches (record { outbox = o; transport = t; batches_sent = 0; keys_sent = 0 }) in
      (do sent; outcome; ok (record { batches_sent = s.batches_sent; keys_sent = s.keys_sent }), s)

  -- sync_content_keys(outbox, transport, max_records=..., max_batches=...)
  unfoldable pub sync_content_keys : ℕ → Option ℕ → Outbox → T → Result KeySyncResult × Outbox × T
  unfolding ship_pending ship confirm_keys key_versions
  sync_content_keys max_records max_batches o t =
      if at_least_one max_batches
      then (let (r, s) = ship_pending max_records max_batches o t in (r, s.outbox, s.transport))
      else (err value_error, o, t)
