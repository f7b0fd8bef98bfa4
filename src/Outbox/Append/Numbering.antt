-- ===== src/Outbox/Append/Numbering.antt =====
-- The sequences that the built records carry.
use hermes_flight_recorder.Base.{
  ltb, Bool-cases, Option-cases, length, pos, ℕ, ◌+◌, String, ◌≡◌, refl, subst, inl, inr, false,
  some, List, [], ◌∷◌, arith,
}
use hermes_flight_recorder.Value.{integer, Fields, find, put, update, find-put, as_object}
use hermes_flight_recorder.Value.Json.{Bytes}
use hermes_flight_recorder.Result.{ok, or_raise, key_error, >>=-eq-ok, ok-injective}
use hermes_flight_recorder.Envelope.Vocabulary.{contains}
use hermes_flight_recorder.Sync.Batches.{max_ingest_batch_bytes}
use hermes_flight_recorder.Outbox.Append.Records.{
  Rows, plan_content, inline_size, seal_into, Call, Sealed, sealed_fields, copy_fields,
  session_fields, get_item, chunk_record, chunk_from, chunk_records, chunked_parent,
}

abbrev pub HasSequence : ℕ → Fields → Type 0
HasSequence n r = find "producer_sequence" r ≡ some (integer (pos n))

-- Consecutive sequences after `k`.
abbrev pub Numbered : ℕ → List Fields → Type 0
Numbered k [] = Unit
Numbered k (r ∷ rs) = HasSequence (k + 1) r × Numbered (k + 1) rs

-- Encryption sets none of the fields of identity.
pub HasSequence-sealed :
    (n : ℕ) (version : String) (s : Sealed) (r : Fields)
    → HasSequence n r
    → HasSequence n (update r (sealed_fields version s))
unfolding update sealed_fields
HasSequence-sealed n version s r h = simp find-put h

pub HasSequence-put :
    (n : ℕ) (r : Fields) → HasSequence n (put "producer_sequence" (integer (pos n)) r)
HasSequence-put n r = rw find-put

HasSequence-copy :
    (n : ℕ) (names : List String) (parent r : Fields)
    → contains "producer_sequence" names ≡ false
    → HasSequence n r
    → HasSequence n (copy_fields names parent r)
unfolding copy_fields contains
HasSequence-copy n [] parent r e h = h
HasSequence-copy n (name ∷ names) parent r e h = elim (Option-cases (find name parent)) [
  | inl q ↦ rw (q, copy_fields) (HasSequence-copy n names parent r (ground arith) h)
  | inr (v, q) ↦
      rw (q, copy_fields)
        (HasSequence-copy n names parent (put name v r) (ground arith)
          (rw find-put (ground (arith, h))))
]

chunk_record-HasSequence :
    (c : Call) (version : String) (parent : Fields) (raw : Bytes) (count high_water index : ℕ)
    (piece : Bytes) {r : Fields}
    → chunk_record c version parent raw count high_water index piece ≡ ok r
    → HasSequence (high_water + index + 1) r
unfolding chunk_record find
chunk_record-HasSequence c version parent raw count high_water index piece h =
    let (v₁, _, h₁) = >>=-eq-ok (get_item "schema_version" parent) _ h in
    let (v₂, _, h₂) = >>=-eq-ok (get_item "occurred_at" parent) _ h₁ in
    let (v₃, _, h₃) = >>=-eq-ok (get_item "recorded_at" parent) _ h₂ in
    let (v₄, _, h₄) = >>=-eq-ok (get_item "installation_id" parent) _ h₃ in
    let (v₅, _, h₅) = >>=-eq-ok (get_item "tenant_id" parent) _ h₄ in
    let (v₆, _, h₆) = >>=-eq-ok (get_item "profile" parent) _ h₅ in
    let (v₇, _, h₇) = >>=-eq-ok (get_item "runtime" parent) _ h₆ in
    let (v₈, _, h₈) = >>=-eq-ok (get_item "correlation_id" parent) _ h₇ in
    let (v₉, _, h₉) = >>=-eq-ok (get_item "event_id" parent) _ h₈ in
    subst (HasSequence (high_water + index + 1)) (ok-injective h₉) (
      HasSequence-copy (high_water + index + 1) session_fields parent _ (unfold contains in refl)
        refl)

pub chunk_from-Numbered :
    (c : Call) (version : String) (parent : Fields) (raw : Bytes) (count high_water index : ℕ)
    (ps : List Bytes) {rs : List Fields} (k : ℕ)
    → k ≡ high_water + index
    → chunk_from c version parent raw count high_water index ps ≡ ok rs
    → Numbered k rs
unfolding chunk_from
chunk_from-Numbered c version parent raw count high_water index [] k q h =
    subst (Numbered k) (ok-injective h) tt
chunk_from-Numbered c version parent raw count high_water index (piece ∷ ps) k q h =
    let (r, e, h₁) =
      >>=-eq-ok (chunk_record c version parent raw count high_water index piece) _ h in
    let (rs, f, h₂) =
      >>=-eq-ok (chunk_from c version parent raw count high_water (index + 1) ps) _ h₁ in
    let here = chunk_record-HasSequence c version parent raw count high_water index piece e in
    subst (Numbered k) (ok-injective h₂) (
      subst (λ n. HasSequence n r) (let same : high_water + index + 1 ≡ k + 1 = omega arith in same)
          here,
      chunk_from-Numbered c version parent raw count high_water (index + 1) ps (k + 1) (omega arith)
          f,
    )

-- The chunks follow the high water.
pub chunk_records-Numbered :
    (c : Call) (version : String) (parent : Fields) (raw : Bytes) (high_water : ℕ)
    {rs : List Fields}
    → chunk_records c version parent raw high_water ≡ ok rs
    → Numbered high_water rs
unfolding chunk_records
chunk_records-Numbered c version parent raw high_water h =
    chunk_from-Numbered c version parent raw _ high_water 0 _ high_water (omega arith) h

-- The parent follows its chunks.
pub chunked_parent-HasSequence :
    (c : Call) (r : Fields) (raw : Bytes) (count high_water : ℕ) {parent : Fields}
    → chunked_parent c r raw count high_water ≡ ok parent
    → HasSequence (high_water + count + 1) parent
unfolding chunked_parent
chunked_parent-HasSequence c r raw count high_water h =
    let (p, _, h₁) = >>=-eq-ok (or_raise key_error (as_object (find "payload" r))) _ h in
    let (v, _, h₂) = >>=-eq-ok (get_item "event_id" r) _ h₁ in
    subst (HasSequence (high_water + count + 1)) (ok-injective h₂)
      (HasSequence-put (high_water + count + 1) _)

-- The rows that are planned for content follow the high water.
pub plan_content-Numbered :
    (c : Call) (version : String) (r : Fields) (raw : Bytes) (w : ℕ) {rows : Rows}
    → plan_content c version r raw w ≡ ok rows
    → HasSequence (w + 1) r
    → Numbered w rows.chunks × HasSequence (w + length rows.chunks + 1) rows.parent
unfolding plan_content
plan_content-Numbered c version r raw w {rows} h s =
    elim (Bool-cases (ltb max_ingest_batch_bytes (inline_size r version (length raw)))) [
      | inr f ↦
          let q = ok-injective (rw (f, plan_content) at h) in
          let zero_more : w + 1 ≡ w + 0 + 1 = omega arith in
          subst (λ (x : Rows). Numbered w x.chunks × HasSequence (w + length x.chunks + 1) x.parent)
            q
            (
              tt,
              unfold seal_into in
                  (HasSequence-sealed (w + 0 + 1) version _ r
                    (subst (λ n. HasSequence n r) zero_more s)),
            )
      | inl f ↦
          let (chunks, e₁, h₁) =
            >>=-eq-ok (chunk_records c version r raw w) _ (rw (f, plan_content) at h) in
          let (parent, e₂, h₂) = >>=-eq-ok (chunked_parent c r raw (length chunks) w) _ h₁ in
          subst (λ (x : Rows). Numbered w x.chunks × HasSequence (w + length x.chunks + 1) x.parent)
            (ok-injective h₂)
            (
              chunk_records-Numbered c version r raw w e₁,
              chunked_parent-HasSequence c r raw (length chunks) w e₂,
            )
    ]
