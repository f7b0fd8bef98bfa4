-- ===== src/Outbox/Append/Records.antt =====
-- The records that _append builds (collector/outbox.py): stamps, encrypted content, content chunks
-- and the companion security finding. What comes from outside the repository is an argument: the
-- clock, the random identities and the results of the cryptography library are in `Call`, the result of
-- the secret scan is a `Scan`.
use hermes_flight_recorder.Base.{
  ltb, if◌then◌else◌, length, take, drop, pos, ℕ, zero, suc, ◌+◌, ◌-◌, ◌*◌, ◌/◌, String, Bool,
  false, ◌||◌, not, Option, none, some, List, [], ◌∷◌, ◌==◌,
}
use hermes_flight_recorder.Result.{Result, ok, ◌>>=◌, or_raise, key_error, attribute_error}
use hermes_flight_recorder.Value.{
  Value, boolean, integer, real, text, object, Fields, end, field, find, put, update, as_text,
  as_object, not_null,
}
use hermes_flight_recorder.Value.Json.{Bytes}
use hermes_flight_recorder.Envelope.Vocabulary.{schema_version, reconcile_finding_types, contains}
use hermes_flight_recorder.Sync.Batches.{singleton_batch_size, max_ingest_batch_bytes}
use hermes_flight_recorder.Outbox.State.{ContentKey, Outbox}

-- cc.encrypt_content, in base64, with the content hash.
pub record Sealed : Type 0 where
  pub ciphertext : String
  pub nonce : String
  pub hash : String

-- What one call draws: uuid4, time.time(), a fresh data key in case none is in memory, and the
-- encryption under a key_version of the content, of the piece with an index, and of the finding.
pub record Call : Type 0 where
  pub event_id : String
  pub recorded_at : ℕ
  pub new_key : ContentKey
  pub seal_content : String → Bytes → Sealed
  pub chunk_id : ℕ → String
  pub seal_chunk : String → ℕ → Bytes → Sealed
  pub finding_id : String
  pub finding_recorded_at : ℕ
  pub seal_finding : String → Bytes → Sealed
  pub content_hash : Bytes → String

-- security_scan.FindingResult, with the text of its finding.
pub record Scan : Type 0 where
  pub status : String
  pub match_count : ℕ
  pub content : Bytes

-- The four content fields.
unfoldable pub sealed_fields : String → Sealed → Fields
sealed_fields version s = field "content_ciphertext" (text s.ciphertext) (
    field "content_nonce" (text s.nonce)
      (field "content_hash" (text s.hash) (field "key_version" (text version) end)))

unfoldable pub seal_into : Call → String → Fields → Bytes → Fields
unfolding sealed_fields
seal_into c version r raw = update r (sealed_fields version (c.seal_content version raw))

-- record.setdefault(name, value)
unfoldable pub set_default : String → Value → Fields → Fields
set_default name v r = elim (find name r) [ none ↦ put name v r | some w ↦ r ]

-- The stamps of the outbox on a copy of the caller's record.
unfoldable pub stamp : Call → Outbox → Fields → Fields
unfolding set_default
stamp c o r = put "recorded_at" (real c.recorded_at) (
    put "event_id" (text c.event_id) (
      put "installation_id" (text o.installation_id)
        (set_default "schema_version" (text schema_version) r)))

-- rec.get("payload", {}).get("event_type")
unfoldable pub event_type_of : Fields → Result (Option String)
unfolding find
event_type_of r = elim (find "payload" r) [
  | none ↦ ok none
  | some v ↦ do
    p ← or_raise attribute_error (as_object (some v))
    ok (as_text (find "event_type" p))
]

abbrev pub security_finding_event : String
security_finding_event = "security.secret_detected"

unfoldable pub skips_scan : Option String → Bool
unfolding contains
skips_scan none = false
skips_scan (some t) = t == security_finding_event || contains t reconcile_finding_types

-- len(text), in characters
unfoldable pub text_length : String → ℕ
text_length String.[] = 0
text_length (String.◌∷◌ c s) = suc (text_length s)

-- _inline_singleton_size(record, plaintext_bytes)
unfoldable pub inline_size : Fields → String → ℕ → ℕ
unfolding text_length
inline_size r version plaintext_bytes =
    let probe = update r (
      field "content_ciphertext" (text "") (
        field "content_nonce" (text "")
          (field "content_hash" (text "") (field "key_version" (text "") end)))) in
    singleton_batch_size probe
    + 4 * ((plaintext_bytes + 16 + 2) / 3)
    + 16
    + (7 + 64)
    + text_length version

abbrev pub content_chunk_bytes : ℕ
content_chunk_bytes = 2 * 1024 * 1024

-- raw[offset : offset + size] for each offset; the fuel is the number of bytes.
unfoldable pub pieces : ℕ → ℕ → Bytes → List Bytes
pieces zero size raw = []
pieces (suc fuel) size [] = []
pieces (suc fuel) size (b ∷ raw) = take size (b ∷ raw) ∷ pieces fuel size (drop size (b ∷ raw))

-- record[name]
abbrev pub get_item : String → Fields → Result Value
get_item name r = or_raise key_error (find name r)

abbrev pub session_fields : List String
session_fields = "session_id" ∷ "session_key" ∷ "parent_session_id" ∷ "invocation_id" ∷ []

-- if field in parent: chunk[field] = parent[field]
unfoldable pub copy_fields : List String → Fields → Fields → Fields
copy_fields [] parent r = r
copy_fields (name ∷ names) parent r =
    copy_fields names parent (elim (find name parent) [ none ↦ r | some v ↦ put name v r ])

-- The body of the loop of _content_chunk_records.
unfoldable pub chunk_record : Call → String → Fields → Bytes → ℕ → ℕ → ℕ → Bytes → Result Fields
unfolding sealed_fields
chunk_record c version parent raw count high_water index piece = do
  schema ← get_item "schema_version" parent
  occurred_at ← get_item "occurred_at" parent
  recorded_at ← get_item "recorded_at" parent
  installation_id ← get_item "installation_id" parent
  tenant_id ← get_item "tenant_id" parent
  profile ← get_item "profile" parent
  runtime ← get_item "runtime" parent
  correlation_id ← get_item "correlation_id" parent
  content_ref ← get_item "event_id" parent
  let payload = field "event_type" (text "runtime.content_chunk_recorded") (
      field "content_ref" content_ref (
        field "chunk_index" (integer (pos index)) (
          field "chunk_count" (integer (pos count)) (
            field "chunk_plaintext_bytes" (integer (pos (length piece))) (
              field "content_plaintext_bytes" (integer (pos (length raw)))
                (field "content_plaintext_hash" (text (c.content_hash raw)) end))))))
  let chunk = field "schema_version" schema (
      field "event_id" (text (c.chunk_id index)) (
        field "producer_sequence" (integer (pos (high_water + index + 1))) (
          field "occurred_at" occurred_at (
            field "recorded_at" recorded_at (
              field "installation_id" installation_id (
                field "tenant_id" tenant_id (
                  field "profile" profile (
                    field "runtime" runtime (
                      field "correlation_id" correlation_id (
                        field "source" (text "outbox:content-chunker") (
                          field "capture_method" (text "derive:outbox-content-chunk") (
                            field "payload" (object payload) (
                              field "partial" (boolean false) (
                                sealed_fields version
                                  (c.seal_chunk version index piece)))))))))))))))
  ok (copy_fields session_fields parent chunk)

unfoldable pub chunk_from :
    Call → String → Fields → Bytes → ℕ → ℕ → ℕ → List Bytes → Result (List Fields)
chunk_from c version parent raw count high_water index [] = ok []
chunk_from c version parent raw count high_water index (piece ∷ rest) = do
  chunk ← chunk_record c version parent raw count high_water index piece
  chunks ← chunk_from c version parent raw count high_water (index + 1) rest
  ok (chunk ∷ chunks)

-- _content_chunk_records(parent, raw, high_water)
unfoldable pub chunk_records : Call → String → Fields → Bytes → ℕ → Result (List Fields)
unfolding chunk_from chunk_record pieces copy_fields
chunk_records c version parent raw high_water =
    let count = (length raw + content_chunk_bytes - 1) / content_chunk_bytes in
    chunk_from c version parent raw count high_water 0 (pieces (length raw) content_chunk_bytes raw)

-- The parent of chunked content: its payload names the chunks, its sequence follows theirs.
unfoldable pub chunked_parent : Call → Fields → Bytes → ℕ → ℕ → Result Fields
chunked_parent c r raw count high_water = do
  payload ← or_raise key_error (as_object (find "payload" r))
  content_ref ← get_item "event_id" r
  let reference = field "content_storage" (text "chunked") (
      field "content_ref" content_ref (
        field "content_chunk_count" (integer (pos count)) (
          field "content_plaintext_bytes" (integer (pos (length raw)))
            (field "content_plaintext_hash" (text (c.content_hash raw)) end))))
  ok (
      put "producer_sequence" (integer (pos (high_water + count + 1)))
        (put "payload" (object (update payload reference)) r))

-- The record to insert, with the chunks before it.
pub record Rows : Type 0 where
  pub chunks : List Fields
  pub parent : Fields

-- Content that does not fit one request is chunked; other content is encrypted in the record.
unfoldable pub plan_content : Call → String → Fields → Bytes → ℕ → Result Rows
plan_content c version numbered raw high_water =
    if ltb max_ingest_batch_bytes (inline_size numbered version (length raw))
    then (do
      chunks ← chunk_records c version numbered raw high_water
      parent ← chunked_parent c numbered raw (length chunks) high_water
      ok (record { chunks = chunks; parent = parent }))
    else ok (record { chunks = []; parent = seal_into c version numbered raw })

abbrev pub detector_name : String
detector_name = "detect-secrets-1.5.0-policy-v2"

-- The session fields of the source that are not None.
unfoldable pub present_fields : List String → Fields → Fields → Fields
present_fields [] source rest = rest
present_fields (name ∷ names) source rest =
    let others = present_fields names source rest in
    elim (find name source) [
      | none ↦ others
      | some v ↦ if not_null (some v) then field name v others else others
    ]

-- _security_finding_record(source, result)
unfoldable pub finding_record : Call → Scan → Fields → Result Fields
unfolding present_fields
finding_record c scan source = do
  occurred_at ← get_item "occurred_at" source
  installation_id ← get_item "installation_id" source
  tenant_id ← get_item "tenant_id" source
  profile ← get_item "profile" source
  runtime ← get_item "runtime" source
  correlation_id ← get_item "correlation_id" source
  event_id ← get_item "event_id" source
  let payload = field "event_type" (text security_finding_event) (
      field "detector" (text detector_name) (
        field "match_count" (integer (pos scan.match_count))
          (field "artifact_ref" event_id (field "scan_status" (text scan.status) end))))
  let rest = field "correlation_id" correlation_id (
      field "causation_id" event_id (
        field "source" (text "secret_scan") (
          field "capture_method" (text detector_name) (
            field "payload" (object payload)
              (field "partial" (boolean (not (scan.status == "complete"))) end)))))
  ok (
      field "schema_version" (text schema_version) (
        field "event_id" (text c.finding_id) (
          field "occurred_at" occurred_at (
            field "recorded_at" (real c.finding_recorded_at) (
              field "installation_id" installation_id (
                field "tenant_id" tenant_id (
                  field "profile" profile
                    (field "runtime" runtime (present_fields session_fields source rest)))))))))
