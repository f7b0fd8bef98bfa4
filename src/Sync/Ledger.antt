-- ===== src/Sync/Ledger.antt =====
-- InMemoryTransport (hermes_flight_recorder/collector/sync.py) with its two channels: its memory,
-- whose indexes have the identities of its ledgers, as they have in a new one.
use hermes_flight_recorder.Base.{
  All-map, String, ◌≡◌, refl, sym, ap, ◌∙◌, subst, true, Option, none, some, List, map,
}
use hermes_flight_recorder.Value.{Fields}
use hermes_flight_recorder.Result.{Result}
use hermes_flight_recorder.Envelope.Vocabulary.{contains}
use hermes_flight_recorder.Sync.Batches.{Batch}
use hermes_flight_recorder.Sync.Deliver.{Ack}
use hermes_flight_recorder.Sync.Deliver.Safety.{IsDurable}
use hermes_flight_recorder.Sync.Deliver.Reliable.{IsReliable}
use hermes_flight_recorder.Sync.Deliver.Memory.{
  Memory, empty, send, event_id_of, is_recorded, IsIndexed, send-IsIndexed, send-records,
  send-is_recorded, send-keys,
}
use hermes_flight_recorder.Sync.Deliver.Memory.Up.{send-IsReliable}
use hermes_flight_recorder.Sync.Keys.{KeyAck}
use hermes_flight_recorder.Sync.Keys.Shipped.{IsKeyDurable, IsHeldAs, IsAccepted}
use hermes_flight_recorder.Sync.Keys.Memory.{
  send_keys, identity_of, text_or_empty, has_identity, is_kept, IsKeyIndexed,
  send_keys-IsKeyIndexed, send_keys-keeps, send_keys-is_kept, send_keys-events,
}

pub record Ledger : Type 0 where
  pub memory : Memory
  pub indexed : IsIndexed memory
  pub key_indexed : IsKeyIndexed memory

abbrev pub new_ledger : Ledger
unfolding contains has_identity
new_ledger = record { memory = empty; indexed = λ id. refl; key_indexed = λ k. refl }

abbrev pub send_to : Batch → Ledger → Result Ack × Ledger
send_to b l = (
  (send b l.memory).0,
  record {
    memory = (send b l.memory).1;
    indexed = send-IsIndexed b l.memory l.indexed;
    key_indexed =
        subst
          (λ (x : List Fields × List (String × String)).
            (k : String × String) → has_identity k x.1 ≡ has_identity k (map identity_of x.0))
          (sym (send-keys b l.memory)) l.key_indexed;
  },
)

abbrev pub send_keys_to : Batch → Ledger → Result KeyAck × Ledger
send_keys_to b l = (
  (send_keys b l.memory).0,
  record {
    memory = (send_keys b l.memory).1;
    indexed =
        subst
          (λ (x : List Fields × List String).
            (id : String) → contains id x.1 ≡ contains id (map event_id_of x.0))
          (sym (send_keys-events b l.memory)) l.indexed;
    key_indexed = send_keys-IsKeyIndexed b l.memory l.key_indexed;
  },
)

-- A record is held when the ledger has a record with its event_id.
pub record Holds (l : Ledger) (r : Fields) : Type 0 where
  pub recorded : is_recorded l.memory (event_id_of r) ≡ true

-- A key is held when the ledger of keys has a record with its identity.
pub record HoldsKey (l : Ledger) (id version : String) : Type 0 where
  pub kept : is_kept l.memory (id, version) ≡ true

-- The in-memory sink keeps a transport's promise: each record of an acknowledged batch has a record
-- of its event_id in the ledger, and the ledger loses no event_id.
pub send-IsDurable : IsDurable send_to Holds
send-IsDurable = record {
  accepts = λ b l ack e.
      All-map _ (Holds (send_to b l).1) (λ r h. record { recorded = h }) b.records
        (send-records b l.memory l.indexed);
  keeps = λ b l r h. record { recorded = send-is_recorded b l.memory (event_id_of r) h.recorded };
}

IsHeldAs-kept :
    (l : Ledger) (id version : Option String)
    → is_kept l.memory (text_or_empty id, text_or_empty version) ≡ true
    → IsHeldAs HoldsKey l id version
unfolding text_or_empty
IsHeldAs-kept l none version h = tt
IsHeldAs-kept l (some id) none h = tt
IsHeldAs-kept l (some id) (some version) h = record { kept = h }

-- The in-memory sink keeps the side channel's promise: each key of an acknowledged batch has a key of
-- its identity in the ledger of keys, and that ledger loses no identity.
pub send_keys-IsKeyDurable : IsKeyDurable send_keys_to HoldsKey
unfolding identity_of
send_keys-IsKeyDurable = record {
  accepts = λ b l ack e.
      All-map _ (IsAccepted HoldsKey (send_keys_to b l).1)
        (λ r h. IsHeldAs-kept (send_keys_to b l).1 _ _ h) b.records
        (send_keys-keeps b l.memory l.key_indexed);
  keeps = λ b l id version h. record { kept = send_keys-is_kept b l.memory (id, version) h.kept };
}

-- Neither channel touches what the other holds.
pub send_keys-Holds :
    (b : Batch) (l : Ledger) (r : Fields) → Holds l r → Holds (send_keys_to b l).1 r
send_keys-Holds b l r h = record {
  recorded =
      ap (λ (x : List Fields × List String). contains (event_id_of r) (map event_id_of x.0))
        (send_keys-events b l.memory)
      ∙ h.recorded;
}

pub send-HoldsKey :
    (b : Batch) (l : Ledger) (id version : String)
    → HoldsKey l id version
    → HoldsKey (send_to b l).1 id version
send-HoldsKey b l id version h = record {
  kept =
      ap
        (λ (x : List Fields × List (String × String)).
          has_identity (id, version) (map identity_of x.0))
        (send-keys b l.memory)
      ∙ h.kept;
}

-- The sink is up.
pub send_to-IsReliable : IsReliable send_to
send_to-IsReliable b l c q = send-IsReliable b l.memory c q
