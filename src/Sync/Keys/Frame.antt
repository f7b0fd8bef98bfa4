-- ===== src/Sync/Keys/Frame.antt =====
-- What the transport keeps in every call, it keeps in a shipment of keys.
use hermes_flight_recorder.Base.{Bool-cases, ℕ, ◌≡◌, subst, inl, inr, Option, List, [], ◌∷◌}
use hermes_flight_recorder.Result.{Result, ok, ◌>>=◌, >>=-eq-ok, Result-cases, ok-injective}
use hermes_flight_recorder.Outbox.State.{Outbox}
use hermes_flight_recorder.Sync.Batches.{Batch}
use hermes_flight_recorder.Sync.Deliver.{slice, at_least_one}
use hermes_flight_recorder.Sync.Keys.{
  KeyAck, Shipment, validate_key_ack, key_versions, confirm_keys, ship, ship_pending,
  sync_content_keys, iter_unshipped_content_keys, build_key_batches,
}

module _ {T : Type 0} (send_keys : Batch → T → Result KeyAck × T) (now : ℕ) (K : T → Type 0)
    (keeps : (b : Batch) (t : T) → K t → K (send_keys b t).1) where
  confirm_keys-transport :
      (b : Batch) (ack : KeyAck) (s : Shipment T) {s' : Shipment T}
      → confirm_keys now b ack s ≡ ok s'
      → K s.transport
      → K s'.transport
  unfolding confirm_keys
  confirm_keys-transport b ack s q k =
      let (u, _, q₁) = >>=-eq-ok (validate_key_ack ack b) _ q in
      let (versions, _, q₂) = >>=-eq-ok (key_versions b.records) _ q₁ in
      subst (λ (s' : Shipment T). K s'.transport) (ok-injective q₂) k

  ship-transport :
      (bs : List Batch) (s : Shipment T) → K s.transport → K (ship send_keys now bs s).1.transport
  unfolding ship
  ship-transport [] s k = k
  ship-transport (b ∷ bs) s k =
      let s₁ : Shipment T = record s { transport = (send_keys b s.transport).1 } in
      let k₁ = keeps b s.transport k in
      elim (Result-cases ((send_keys b s.transport).0 >>= λ ack. confirm_keys now b ack s₁)) [
        | inr (e, f) ↦ rw (f, ship) k₁
        | inl (s₂, f) ↦
            let (ack, _, g) = >>=-eq-ok (send_keys b s.transport).0 _ f in
            rw (f, ship) (ship-transport bs s₂ (confirm_keys-transport b ack s₁ g k₁))
      ]

  pub sync_content_keys-transport :
      (max_records : ℕ) (max_batches : Option ℕ) (o : Outbox) (t : T)
      → K t
      → K (sync_content_keys send_keys now max_records max_batches o t).2
  unfolding sync_content_keys ship_pending
  sync_content_keys-transport max_records max_batches o t k =
      elim (Bool-cases (at_least_one max_batches)) [
        | inr e ↦ rw (e, sync_content_keys) k
        | inl e ↦
            rw (e, sync_content_keys)
              (ship-transport
                (slice max_batches
                  (build_key_batches max_records (iter_unshipped_content_keys o))).0
                _ k)
      ]
