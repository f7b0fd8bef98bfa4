-- ===== src/Sync/Keys/Grouping.antt =====
-- The batches of the wrapped keys: what they hold, and that they are complete.
use hermes_flight_recorder.Base.{
  ltb, Bool-cases, All, All-append, ℕ, ◌≤◌, String, ◌≡◌, refl, sym, ap, ◌∙◌, inl, inr, true, false,
  Option, none, some, List, [], ◌∷◌, ◌++◌, append-nil, append_assoc, arith, eq_refl,
}
use hermes_flight_recorder.Value.{Fields, find, text}
use hermes_flight_recorder.Result.{
  Error, ok, err, require, sync_error, ◌>>◌, Result-cases, ok-injective,
}
use hermes_flight_recorder.Sync.Batches.{
  Batch, emit, is_empty, preserialized, record_json, same_installation,
}
use hermes_flight_recorder.Sync.Batches.Contents.{batch_records}
use hermes_flight_recorder.Sync.Keys.{
  KeyBuilder, no_keys, admit_key, is_full, restart, join, finish_keys, build_keys_from,
  build_key_batches,
}

-- One round of the loop.
pub data KeyRound (n : ℕ) (b : KeyBuilder) (r : Fields) (rs : List Fields) : Type 0 where
  raises :
      (e : Error)
      → admit_key b r ≡ err e
      → build_keys_from n b (r ∷ rs) ≡ ([], err e)
      → KeyRound n b r rs
  yields :
      (id : String)
      → admit_key b r ≡ ok id
      → build_keys_from n b (r ∷ rs)
        ≡ emit (preserialized b.current b.current_parts) (build_keys_from n (restart r id) rs)
      → KeyRound n b r rs
  joins :
      (id : String)
      → admit_key b r ≡ ok id
      → build_keys_from n b (r ∷ rs) ≡ build_keys_from n (join b r id) rs
      → KeyRound n b r rs

key_round : (n : ℕ) (b : KeyBuilder) (r : Fields) (rs : List Fields) → KeyRound n b r rs
unfolding build_keys_from
key_round n b r rs = elim (Result-cases (admit_key b r)) [
  | inr (e, a) ↦ raises e a (rw (a, build_keys_from))
  | inl (id, a) ↦ elim (Bool-cases (is_full n b (record_json r))) [
    | inl f ↦ yields id a (rw (a, build_keys_from) (rw f))
    | inr f ↦ joins id a (rw (a, build_keys_from) (rw f))
  ]
]

-- Every record of a batch is one of those given.
module _ (P : Fields → Type 0) where
  build_keys_from-All :
      (n : ℕ) (b : KeyBuilder) (rs : List Fields)
      → All P b.current
      → All P rs
      → All (λ (batch : Batch). All P batch.records) (build_keys_from n b rs).0
  unfolding build_keys_from finish_keys restart join preserialized
  build_keys_from-All n b [] c h = elim (Bool-cases (is_empty b.current)) [
    | inl e ↦ rw (e, finish_keys) tt
    | inr e ↦ rw (e, finish_keys) (c, tt)
  ]
  build_keys_from-All n b (r ∷ rs) c h = elim (key_round n b r rs) [
    | raises e a q ↦ rw q tt
    | yields id a q ↦ rw q (c, build_keys_from-All n (restart r id) rs (h.0, tt) h.1)
    | joins id a q ↦
        rw q
          (build_keys_from-All n (join b r id) rs (All-append P b.current (r ∷ []) c (h.0, tt)) h.1)
  ]

  pub build_key_batches-All :
      (n : ℕ) (rs : List Fields)
      → All P rs
      → All (λ (batch : Batch). All P batch.records) (build_key_batches n rs).0
  unfolding build_key_batches
  build_key_batches-All n rs h = elim (Bool-cases (ltb n 1)) [
    | inl e ↦ rw (e, build_key_batches) tt
    | inr e ↦ rw (e, build_key_batches) (build_keys_from-All n no_keys rs tt h)
  ]

-- A record of an installation.
abbrev pub IsOf : String → Fields → Type 0
IsOf id r = find "installation_id" r ≡ some (text id)

abbrev Expects : String → Option String → Type 0
Expects id none = Unit
Expects id (some other) = other ≡ id

admit_key-IsOf :
    (b : KeyBuilder) (r : Fields) (id : String)
    → IsOf id r
    → Expects id b.installation_id
    → admit_key b r ≡ ok id
unfolding admit_key
admit_key-IsOf b r id h e = rw (h, admit_key) (expected b.installation_id e)
  where
    expected :
        (o : Option String)
        → Expects id o
        → (do require (same_installation o id) sync_error; ok id) ≡ ok id
    expected none e = refl
    expected (some other) e = rw (e, eq_refl id) refl

build_keys_from_complete :
    (n : ℕ) (b : KeyBuilder) (id : String) (rs : List Fields)
    → Expects id b.installation_id
    → All (IsOf id) rs
    → ((build_keys_from n b rs).1 ≡ ok tt)
      × (batch_records (build_keys_from n b rs).0 ≡ b.current ++ rs)
unfolding build_keys_from finish_keys restart join preserialized
build_keys_from_complete n b id [] e h = elim (Bool-cases (is_empty b.current)) [
  | inl q ↦ rw (q, finish_keys) (refl, sym (append-nil b.current ∙ is_empty-nil b.current q))
  | inr q ↦ rw (q, finish_keys) (refl, refl)
]
  where
    is_empty-nil : (rs : List Fields) → is_empty rs ≡ true → rs ≡ []
    is_empty-nil [] h = refl
    is_empty-nil (r ∷ rs) h = absurd cc
build_keys_from_complete n b id (r ∷ rs) e h =
    let admitted = admit_key-IsOf b r id h.0 e in
    elim (key_round n b r rs) [
      | raises e₁ a q ↦ absurd (cc (a, admitted))
      | yields id' a q ↦
          let same : id' ≡ id = ok-injective (sym a ∙ admitted) in
          let (done, whole) = build_keys_from_complete n (restart r id') id rs same h.1 in
          rw q (done, ap (λ xs. b.current ++ xs) whole)
      | joins id' a q ↦
          let same : id' ≡ id = ok-injective (sym a ∙ admitted) in
          let (done, whole) = build_keys_from_complete n (join b r id') id rs same h.1 in
          rw q (done, whole ∙ append_assoc b.current (r ∷ []) rs)
    ]

-- The records of one installation are all grouped, in order.
pub build_key_batches_complete :
    (n : ℕ) (id : String) (rs : List Fields)
    → 1 ≤ n
    → All (IsOf id) rs
    → ((build_key_batches n rs).1 ≡ ok tt) × (batch_records (build_key_batches n rs).0 ≡ rs)
unfolding build_key_batches
build_key_batches_complete n id rs one h =
    let e : ltb n 1 ≡ false = ground arith in
    rw (e, build_key_batches) (build_keys_from_complete n no_keys id rs tt h)
