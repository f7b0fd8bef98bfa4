-- ===== src/Sync/Keys/Memory.antt =====
-- InMemoryTransport.send_keys (collector/sync.py): a sink that stores each key once.
use hermes_flight_recorder.Base.{
  Bool-cases, sym, inl, inr, map, if◌then◌else◌, All, pos, ℕ, ◌+◌, String, ◌≡◌, refl, ◌∙◌, Bool,
  true, false, ◌&&◌, ◌||◌, Option, none, some, List, [], ◌∷◌, ◌++◌, arith, ◌==◌, eq_refl,
}
use hermes_flight_recorder.Value.{Fields, find, as_text}
use hermes_flight_recorder.Result.{Result, ok}
use hermes_flight_recorder.Sync.Batches.{Batch}
use hermes_flight_recorder.Sync.Deliver.Memory.{Memory}
use hermes_flight_recorder.Sync.Keys.{KeyAck}

unfoldable pub same_identity : String × String → String × String → Bool
same_identity (a, b) (c, d) = (a == c) && (b == d)

-- identity in self._key_ids
unfoldable pub has_identity : String × String → List (String × String) → Bool
has_identity k [] = false
has_identity k (l ∷ ls) = same_identity k l || has_identity k ls

-- The counters of one send_keys
pub record KeyTally : Type 0 where
  pub memory : Memory
  pub accepted : ℕ
  pub duplicates : ℕ

-- record["installation_id"] and record["key_version"]: `send_keys` gets built batches, which have
-- both fields, so the KeyError for a missing field is not modelled.
unfoldable pub text_or_empty : Option String → String
text_or_empty (some s) = s
text_or_empty none = ""

unfoldable pub identity_of : Fields → String × String
identity_of r = (
  text_or_empty (as_text (find "installation_id" r)),
  text_or_empty (as_text (find "key_version" r)),
)

-- The body of the loop over the batch's records.
pub accept_key : Fields → KeyTally → KeyTally
accept_key r n =
    let m = n.memory in
    if has_identity (identity_of r) m.key_ids
    then record n { duplicates = n.duplicates + 1 }
    else record n {
      memory = record m { keys = m.keys ++ r ∷ []; key_ids = identity_of r ∷ m.key_ids };
      accepted = n.accepted + 1;
    }

pub accept_keys : List Fields → KeyTally → KeyTally
accept_keys [] n = n
accept_keys (r ∷ rs) n = accept_keys rs (accept_key r n)

unfoldable pub send_keys : Batch → Memory → Result KeyAck × Memory
unfolding accept_keys accept_key identity_of text_or_empty find has_identity same_identity
send_keys batch m =
    let n = accept_keys batch.records (record {
      memory = record m { key_batches = m.key_batches ++ batch ∷ [] };
      accepted = 0;
      duplicates = 0;
    }) in
    (ok (record { accepted = pos n.accepted; duplicates = pos n.duplicates }), n.memory)

-- The identity is that of a key in the ledger.
abbrev pub is_kept : Memory → String × String → Bool
is_kept m k = has_identity k (map identity_of m.keys)

-- The index `key_ids` has the identities of the ledger of keys.
abbrev pub IsKeyIndexed : Memory → Type 0
IsKeyIndexed m = (k : String × String) → has_identity k m.key_ids ≡ is_kept m k

has_identity-append_one :
    (k : String × String) (rs : List Fields) (r : Fields)
    → has_identity k (map identity_of (rs ++ r ∷ []))
      ≡ same_identity k (identity_of r) || has_identity k (map identity_of rs)
unfolding has_identity
has_identity-append_one k [] r = refl
has_identity-append_one k (s ∷ rs) r = ground (arith, has_identity-append_one k rs r)

same_identity_refl : (k : String × String) → same_identity k k ≡ true
unfolding same_identity
same_identity_refl (a, b) = rw (eq_refl a, eq_refl b) refl

accept_key-IsKeyIndexed :
    (r : Fields) (n : KeyTally) → IsKeyIndexed n.memory → IsKeyIndexed (accept_key r n).memory
unfolding accept_key has_identity
accept_key-IsKeyIndexed r n h k =
    elim (Bool-cases (has_identity (identity_of r) n.memory.key_ids)) [
      | inl q ↦ rw (q, accept_key) (h k)
      | inr q ↦ rw (q, accept_key, has_identity-append_one k n.memory.keys r, h k) refl
    ]

accept_keys-IsKeyIndexed :
    (rs : List Fields) (n : KeyTally)
    → IsKeyIndexed n.memory
    → IsKeyIndexed (accept_keys rs n).memory
unfolding accept_keys
accept_keys-IsKeyIndexed [] n h = h
accept_keys-IsKeyIndexed (r ∷ rs) n h =
    accept_keys-IsKeyIndexed rs (accept_key r n) (accept_key-IsKeyIndexed r n h)

-- What is kept stays so.
accept_key-is_kept :
    (k : String × String) (r : Fields) (n : KeyTally)
    → is_kept n.memory k ≡ true
    → is_kept (accept_key r n).memory k ≡ true
unfolding accept_key
accept_key-is_kept k r n h = elim (Bool-cases (has_identity (identity_of r) n.memory.key_ids)) [
  | inl q ↦ rw (q, accept_key) h
  | inr q ↦
      rw (q, accept_key, has_identity-append_one k n.memory.keys r, h)
        (or_true (same_identity k (identity_of r)))
]
  where
    or_true : (b : Bool) → b || true ≡ true
    or_true b = ground arith

accept_keys-is_kept :
    (k : String × String) (rs : List Fields) (n : KeyTally)
    → is_kept n.memory k ≡ true
    → is_kept (accept_keys rs n).memory k ≡ true
unfolding accept_keys
accept_keys-is_kept k [] n h = h
accept_keys-is_kept k (r ∷ rs) n h =
    accept_keys-is_kept k rs (accept_key r n) (accept_key-is_kept k r n h)

accept_key-keeps :
    (r : Fields) (n : KeyTally)
    → IsKeyIndexed n.memory
    → is_kept (accept_key r n).memory (identity_of r) ≡ true
unfolding accept_key
accept_key-keeps r n h = elim (Bool-cases (has_identity (identity_of r) n.memory.key_ids)) [
  | inl q ↦ rw (q, accept_key) (sym (h (identity_of r)) ∙ q)
  | inr q ↦
      rw
        (
          q,
          accept_key,
          has_identity-append_one (identity_of r) n.memory.keys r,
          same_identity_refl (identity_of r),
        )
        refl
]

accept_keys-keeps :
    (rs : List Fields) (n : KeyTally)
    → IsKeyIndexed n.memory
    → All (λ r. is_kept (accept_keys rs n).memory (identity_of r) ≡ true) rs
unfolding accept_keys
accept_keys-keeps [] n h = tt
accept_keys-keeps (r ∷ rs) n h = (
  accept_keys-is_kept (identity_of r) rs (accept_key r n) (accept_key-keeps r n h),
  accept_keys-keeps rs (accept_key r n) (accept_key-IsKeyIndexed r n h),
)

module _ (b : Batch) (m : Memory) where
  pub send_keys-IsKeyIndexed : IsKeyIndexed m → IsKeyIndexed (send_keys b m).1
  unfolding send_keys
  send_keys-IsKeyIndexed h = accept_keys-IsKeyIndexed b.records _ h

  pub send_keys-keeps :
      IsKeyIndexed m → All (λ r. is_kept (send_keys b m).1 (identity_of r) ≡ true) b.records
  unfolding send_keys
  send_keys-keeps h = accept_keys-keeps b.records _ h

  pub send_keys-is_kept :
      (k : String × String) → is_kept m k ≡ true → is_kept (send_keys b m).1 k ≡ true
  unfolding send_keys
  send_keys-is_kept k h = accept_keys-is_kept k b.records _ h

-- What a key leaves of the events
abbrev pub events_of : Memory → List Fields × List String
events_of m = (m.records, m.event_ids)

accept_key-events :
    (r : Fields) (n : KeyTally) → events_of (accept_key r n).memory ≡ events_of n.memory
unfolding accept_key
accept_key-events r n = ground arith

accept_keys-events :
    (rs : List Fields) (n : KeyTally) → events_of (accept_keys rs n).memory ≡ events_of n.memory
unfolding accept_keys
accept_keys-events [] n = refl
accept_keys-events (r ∷ rs) n = accept_keys-events rs (accept_key r n) ∙ accept_key-events r n

-- A key changes no event.
pub send_keys-events : (b : Batch) (m : Memory) → events_of (send_keys b m).1 ≡ events_of m
unfolding send_keys
send_keys-events b m = accept_keys-events b.records _
