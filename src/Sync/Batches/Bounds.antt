-- ===== src/Sync/Batches/Bounds.antt =====
-- The limits that every batch keeps.
use hermes_flight_recorder.Base.{
  ltb, leb, leb→le, Bool-cases, length, All, length-append, ℤ, ℕ, suc, ◌+◌, ◌≤◌, ◌<◌, min, String,
  ◌≡◌, refl, sym, ap, ◌∙◌, inl, inr, true, false, ◌||◌, List, [], ◌∷◌, ◌++◌, map, arith,
}
use hermes_flight_recorder.Value.{Fields, object, find, as_text, as_integer}
use hermes_flight_recorder.Envelope.{validate}
use hermes_flight_recorder.Value.Json.{Bytes, dumps}
use hermes_flight_recorder.Result.{
  ok, require, or_raise, >>=-eq-ok, require-eq-ok, require, or_raise, key_error, sync_error,
}
use hermes_flight_recorder.Sync.Batches.{
  max_ingest_batch_bytes, empty_batch_wire, record_json, join_parts, Batch, preserialized, Limits,
  Builder, start, admit, is_empty, is_full, restart, join, same_installation, follows, finish,
  build_from, build_batches, batch_value,
}
use hermes_flight_recorder.Sync.Batches.Steps.{round, raises, yields, joins}
use hermes_flight_recorder.Sync.Batches.Wire.{
  wire_bytes-preserialized, total, length-preserialized, length-join_parts,
}

abbrev pub target : Limits → ℕ
target l = min l.max_bytes max_ingest_batch_bytes

-- A batch is not empty, keeps the record limit and the protocol's byte limit, keeps the target
-- unless it is a single record, and its cached bytes are the serialized batch.
pub record IsBounded (l : Limits) (batch : Batch) : Type 0 where
  pub not_empty : 1 ≤ length batch.records
  pub count : length batch.records ≤ l.max_records
  pub hard : length batch.wire_bytes ≤ max_ingest_batch_bytes
  pub soft : 1 < length batch.records → length batch.wire_bytes ≤ target l
  pub exact : batch.wire_bytes ≡ dumps (batch_value batch.records)

-- The variables of the loop describe the batch under construction.
record IsSized (l : Limits) (b : Builder) : Type 0 where
  parts : b.current_parts ≡ map record_json b.current
  count : length b.current ≤ l.max_records
  tracked : 1 ≤ length b.current → b.current_bytes ≡ total b.current_parts
  hard : 1 ≤ length b.current → b.current_bytes ≤ max_ingest_batch_bytes
  soft : 1 < length b.current → b.current_bytes ≤ target l

admit-hard :
    (b : Builder) (r : Fields) {stamp : String × ℤ}
    → admit b r ≡ ok stamp
    → length empty_batch_wire + length (record_json r) ≤ max_ingest_batch_bytes
unfolding admit
admit-hard b r h =
    let (c, e₁, h₁) = >>=-eq-ok (validate false (object r)) _ h in
    let (id, e₂, h₂) = >>=-eq-ok (or_raise key_error (as_text (find "installation_id" r))) _ h₁ in
    let (u, e₃, h₃) =
      >>=-eq-ok (require (same_installation b.installation_id id) sync_error) _ h₂ in
    let (s, e₄, h₄) =
      >>=-eq-ok (or_raise key_error (as_integer (find "producer_sequence" r))) _ h₃ in
    let (v, e₅, h₅) = >>=-eq-ok (require (follows b.previous_sequence s) sync_error) _ h₄ in
    let (w, e₆, h₆) = >>=-eq-ok (require (leb _ max_ingest_batch_bytes) sync_error) _ h₅ in
    leb→le _ _ (require-eq-ok _ _ e₆)

restart-IsSized :
    (l : Limits) (r : Fields) (stamp : String × ℤ)
    → 1 ≤ l.max_records
    → length empty_batch_wire + length (record_json r) ≤ max_ingest_batch_bytes
    → IsSized l (restart r stamp)
unfolding restart join_parts
restart-IsSized l r (id, sequence) n h = record {
  parts = refl;
  count = omega arith;
  tracked = λ _. refl;
  hard = λ _. h;
  soft = λ one. absurd (omega arith);
}

map-snoc :
    (rs : List Fields) (r : Fields)
    → map record_json (rs ++ r ∷ []) ≡ map record_json rs ++ record_json r ∷ []
map-snoc [] r = refl
map-snoc (q ∷ rs) r = ap (λ s. record_json q ∷ s) (map-snoc rs r)

total-snoc :
    (ps : List Bytes) (q : Bytes) → 1 ≤ length ps → total (ps ++ q ∷ []) ≡ total ps + length q + 1
total-snoc [] q h = elim h [ ]
total-snoc (p ∷ ps) q h = omega (arith, length-join_parts ps p q)

length-map-json : (rs : List Fields) → length (map record_json rs) ≡ length rs
length-map-json [] = refl
length-map-json (r ∷ rs) = ap suc (length-map-json rs)

is_empty-nil : (rs : List Fields) → is_empty rs ≡ true → rs ≡ []
is_empty-nil [] h = refl
is_empty-nil (r ∷ rs) h = cc

is_empty-cons : (rs : List Fields) → is_empty rs ≡ false → 1 ≤ length rs
is_empty-cons [] h = cc
is_empty-cons (r ∷ rs) h = omega arith

-- The first record of a batch.
join-IsSized_first :
    (l : Limits) (b : Builder) (r : Fields) (stamp : String × ℤ)
    → 1 ≤ l.max_records
    → length empty_batch_wire + length (record_json r) ≤ max_ingest_batch_bytes
    → is_empty b.current ≡ true
    → IsSized l b
    → IsSized l (join b r stamp)
unfolding join join_parts
join-IsSized_first l b r (id, sequence) n h e s =
    let none : b.current ≡ [] = is_empty-nil b.current e in
    let no_parts : b.current_parts ≡ [] = s.parts ∙ ap (map record_json) none in
    let one : length (b.current ++ r ∷ []) ≡ 1 = ap (λ rs. length (rs ++ r ∷ [])) none in
    record {
      parts = ap (λ ps. ps ++ record_json r ∷ []) s.parts ∙ sym (map-snoc b.current r);
      count = omega arith;
      tracked = λ _. rw e (rw no_parts refl);
      hard = λ _. rw e h;
      soft = λ two. absurd (omega arith);
    }

-- A further record, which fits the target.
join-IsSized_more :
    (l : Limits) (b : Builder) (r : Fields) (stamp : String × ℤ)
    → is_full l b (record_json r) ≡ false
    → is_empty b.current ≡ false
    → IsSized l b
    → IsSized l (join b r stamp)
unfolding join is_full
join-IsSized_more l b r (id, sequence) full e s =
    let some_records = is_empty-cons b.current e in
    let fits : (length b.current < l.max_records)
        × (b.current_bytes + length (record_json r) + 1 ≤ target l) =
      ground arith in
    let some_parts : 1 ≤ length b.current_parts =
      rw s.parts (rw (length-map-json b.current) some_records) in
    record {
      parts = ap (λ ps. ps ++ record_json r ∷ []) s.parts ∙ sym (map-snoc b.current r);
      count = omega (arith, length-append {0} b.current (r ∷ []));
      tracked = λ _. rw e (
          omega
            (arith, s.tracked some_records, total-snoc b.current_parts (record_json r) some_parts));
      hard = λ _. rw e (omega arith);
      soft = λ _. rw e fits.1;
    }

join-IsSized :
    (l : Limits) (b : Builder) (r : Fields) (stamp : String × ℤ)
    → 1 ≤ l.max_records
    → length empty_batch_wire + length (record_json r) ≤ max_ingest_batch_bytes
    → is_full l b (record_json r) ≡ false
    → IsSized l b
    → IsSized l (join b r stamp)
join-IsSized l b r stamp n h full s = elim (Bool-cases (is_empty b.current)) [
  | inl e ↦ join-IsSized_first l b r stamp n h e s
  | inr e ↦ join-IsSized_more l b r stamp full e s
]

preserialized-IsBounded :
    (l : Limits) (b : Builder)
    → IsSized l b
    → 1 ≤ length b.current
    → IsBounded l (preserialized b.current b.current_parts)
unfolding preserialized
preserialized-IsBounded l b s n =
    let size = length-preserialized b.current b.current_parts in
    let bytes = s.tracked n in
    record {
      not_empty = n;
      count = s.count;
      hard = omega (arith, size, bytes, s.hard n);
      soft = λ two. omega (arith, size, bytes, s.soft two);
      exact =
          ap (λ ps. (preserialized b.current ps).wire_bytes) s.parts
          ∙ wire_bytes-preserialized b.current;
    }

is_full-not_empty :
    (l : Limits) (b : Builder) (part : Bytes) → is_full l b part ≡ true → 1 ≤ length b.current
unfolding is_full
is_full-not_empty l b part h = is_empty-cons b.current (ground arith)

build_from-IsBounded :
    (l : Limits) (b : Builder) (rs : List Fields)
    → 1 ≤ l.max_records
    → IsSized l b
    → All (IsBounded l) (build_from l b rs).0
unfolding build_from finish
build_from-IsBounded l b [] n s = elim (Bool-cases (is_empty b.current)) [
  | inl e ↦ rw e tt
  | inr e ↦ rw e (preserialized-IsBounded l b s (is_empty-cons b.current e), tt)
]
build_from-IsBounded l b (r ∷ rs) n s = elim (round l b r rs) [
  | raises e a q ↦ rw q tt
  | yields stamp a f q ↦ rw q (
    preserialized-IsBounded l b s (is_full-not_empty l b (record_json r) f),
    build_from-IsBounded l (restart r stamp) rs n (restart-IsSized l r stamp n (admit-hard b r a)),
  )
  | joins stamp a f q ↦ rw q (
      build_from-IsBounded l (join b r stamp) rs n
        (join-IsSized l b r stamp n (admit-hard b r a) f s))
]

start-IsSized : (l : Limits) → IsSized l start
start-IsSized l = record {
  parts = refl;
  count = omega arith;
  tracked = λ h. absurd (omega arith);
  hard = λ _. omega arith;
  soft = λ _. omega arith;
}

-- Every batch that is yielded, also before an error, is not empty, has at most max_records
-- records, its cached wire bytes are exactly the serialized batch and no more than the 4 MiB
-- protocol limit, and with two or more records no more than the max_bytes target.
pub build_batches-IsBounded :
    (l : Limits) (records : List Fields) → All (IsBounded l) (build_batches l records).0
unfolding build_batches
build_batches-IsBounded l records = elim (Bool-cases (ltb l.max_records 1 || ltb l.max_bytes 1)) [
  | inl e ↦ rw e tt
  | inr e ↦ rw e (build_from-IsBounded l start records (ground arith) (start-IsSized l))
]
