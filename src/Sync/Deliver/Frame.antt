-- ===== src/Sync/Deliver/Frame.antt =====
-- What a delivery leaves alone: every table but the meta values, and what the transport keeps.
use hermes_flight_recorder.Base.{
  Bool-cases, ℤ, ℕ, String, ◌≡◌, refl, subst, inl, inr, Option, List, [], ◌∷◌,
}
use hermes_flight_recorder.Result.{Result, ok, >>=-eq-ok, Result-cases, ok-injective}
use hermes_flight_recorder.Outbox.State.{Outbox, set_cursor, set_meta}
use hermes_flight_recorder.Outbox.Sound.{IsSound}
use hermes_flight_recorder.Sync.Batches.{Batch, Limits}
use hermes_flight_recorder.Sync.Deliver.{
  Ack, Delivery, delivery_cursor, delivery_cursor_name, last_sequence, validate_ack, confirm,
  deliver, sync_from, sync, pass_batches, begin, at_least_one,
}

pub record SameButMeta (o o' : Outbox) : Type 0 where
  pub installation_id : o'.installation_id ≡ o.installation_id
  pub high_water : o'.high_water ≡ o.high_water
  pub events : o'.events ≡ o.events
  pub tombstones : o'.tombstones ≡ o.tombstones
  pub content_keys : o'.content_keys ≡ o.content_keys

pub SameButMeta-refl : (o : Outbox) → SameButMeta o o
SameButMeta-refl o = record {
  installation_id = refl;
  high_water = refl;
  events = refl;
  tombstones = refl;
  content_keys = refl;
}

set_cursor-SameButMeta :
    (name : String) (i : ℤ) (o o' : Outbox)
    → SameButMeta o o'
    → SameButMeta o (set_cursor name i o')
unfolding set_cursor set_meta
set_cursor-SameButMeta name i o o' s = record {
  installation_id = s.installation_id;
  high_water = s.high_water;
  events = s.events;
  tombstones = s.tombstones;
  content_keys = s.content_keys;
}

-- The invariant stands on the tables alone.
pub IsSound-SameButMeta : (o o' : Outbox) → SameButMeta o o' → IsSound o → IsSound o'
IsSound-SameButMeta o o' same s = record {
  ordered = rw same.events s.ordered;
  bounded = rw (same.events, same.high_water) s.bounded;
  stamped = rw same.events s.stamped;
  valid = rw same.events s.valid;
  unbroken = λ i. rw (same.events, same.tombstones, same.high_water) (s.unbroken i);
}

module _ {T : Type 0} (send : Batch → T → Result Ack × T) (K : T → Type 0)
    (keeps : (b : Batch) (t : T) → K t → K (send b t).1) where
  record Frame (o : Outbox) (d : Delivery T) : Type 0 where
    same : SameButMeta o d.outbox
    kept : K d.transport

  confirm-Frame :
      (o : Outbox) (b : Batch) (ack : Ack) (d : Delivery T) {d' : Delivery T}
      → confirm b ack d ≡ ok d'
      → Frame o d
      → Frame o d'
  unfolding confirm
  confirm-Frame o b ack d q f =
      let (u, _, q₁) = >>=-eq-ok (validate_ack ack b) _ q in
      let (c, _, q₂) = >>=-eq-ok (last_sequence b.records) _ q₁ in
      subst (Frame o) (ok-injective q₂) record {
        same = set_cursor-SameButMeta delivery_cursor_name c o d.outbox f.same;
        kept = f.kept;
      }

  deliver-Frame :
      (o : Outbox) (bs : List Batch) (d : Delivery T) → Frame o d → Frame o (deliver send bs d).1
  unfolding deliver
  deliver-Frame o [] d f = f
  deliver-Frame o (b ∷ bs) d f =
      let d₁ : Delivery T = record d { transport = (send b d.transport).1 } in
      let f₁ : Frame o d₁ = record { same = f.same; kept = keeps b d.transport f.kept } in
      elim (Result-cases (send b d.transport).0) [
        | inr (e, q) ↦ rw (q, deliver) f₁
        | inl (ack, q) ↦ elim (Result-cases (confirm b ack d₁)) [
          | inr (e, g) ↦ rw (q, g, deliver) f₁
          | inl (d₂, g) ↦ rw (q, g, deliver) (deliver-Frame o bs d₂ (confirm-Frame o b ack d₁ g f₁))
        ]
      ]

  sync_from-Frame :
      (l : Limits) (max_batches : Option ℕ) (c : ℤ) (o : Outbox) (t : T)
      → K t
      → Frame o (sync_from send l max_batches c o t).1
  unfolding sync_from begin
  sync_from-Frame l max_batches c o t k =
      deliver-Frame o (pass_batches l max_batches c o).0 (begin c o t)
        record { same = SameButMeta-refl o; kept = k }

  -- A pass, however it ends, changes the meta values at most, and the transport keeps what it keeps.
  pub sync-Frame :
      (l : Limits) (max_batches : Option ℕ) (o : Outbox) (t : T)
      → K t
      → SameButMeta o (sync send l max_batches o t).1 × K (sync send l max_batches o t).2
  unfolding sync
  sync-Frame l max_batches o t k = elim (Bool-cases (at_least_one max_batches)) [
    | inr e ↦ rw (e, sync) (SameButMeta-refl o, k)
    | inl e ↦ elim (Result-cases (delivery_cursor o)) [
      | inr (x, q) ↦ rw (e, q, sync) (SameButMeta-refl o, k)
      | inl (c, q) ↦
          let f = sync_from-Frame l max_batches c o t k in rw (e, q, sync) (f.same, f.kept)
    ]
  ]
