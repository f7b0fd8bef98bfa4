-- ===== src/Outbox/Prune/Keeps.antt =====
-- What a prune leaves alone: the sequence, the rows still to send, and the deduplication keys.
use hermes_flight_recorder.Base.{
  Bool-cases, All, keep, keep-true, keep-false, ℤ, ℕ, ◌+◌, ◌≡◌, refl, sym, ap, ◌∙◌, subst, inl, inr,
  Bool, true, Option, List, [], ◌∷◌, map, arith,
}
use hermes_flight_recorder.Result.{ok, err, >>=-eq-ok, Result-cases, ok-injective}
use hermes_flight_recorder.Outbox.State.{Event, Tombstone, Outbox, order_by, iter_events}
use hermes_flight_recorder.Outbox.Order.{Above-keep, order_by-Above, iter_events-keep, is_after}
use hermes_flight_recorder.Outbox.Sound.{IsSound, stored_times, count_events, count_tombstones}
use hermes_flight_recorder.Outbox.Prune.{
  is_delivered, victims, is_in, is_kept, sequence_of, store_tombstones, remove, prune_delivered,
  settle, check_arguments, Storage,
}
use hermes_flight_recorder.Outbox.Prune.Rows.{
  All-keep_of, victims-delivered, is_in-delivered, count-split, store_tombstones-count,
}

pub remove-eq-ok :
    (v : Event) (vs : List Event) (o : Outbox) {o' : Outbox}
    → remove (v ∷ vs) o ≡ ok o'
    → (ts : List Tombstone) × (store_tombstones
          (order_by sequence_of (keep (is_in (v ∷ vs)) o.events))
          o.tombstones
        ≡ ok ts)
      × (record o { events = keep (is_kept (v ∷ vs)) o.events; tombstones = ts } ≡ o')
unfolding remove
remove-eq-ok v vs o h =
    let (ts, q, k) =
      >>=-eq-ok
        (store_tombstones (order_by sequence_of (keep (is_in (v ∷ vs)) o.events)) o.tombstones) _
        h in
    (ts, q, ap (λ r. elim r as (λ _. Outbox) [ ok x ↦ x | err e ↦ o ]) k)

-- What the removal of delivered rows keeps.
record Keeps (cursor : ℤ) (o o' : Outbox) : Type 0 where
  high_water : o'.high_water ≡ o.high_water
  meta : o'.meta ≡ o.meta
  content_keys : o'.content_keys ≡ o.content_keys
  sound : IsSound o'
  pending : keep (is_after cursor) o'.events ≡ keep (is_after cursor) o.events

keep-pending :
    (cursor : ℤ) (vs : List Event)
    → All (λ v. is_delivered cursor v ≡ true) vs
    → (es : List Event) → keep (is_after cursor) (keep (is_kept vs) es) ≡ keep (is_after cursor) es
keep-pending cursor vs d [] = refl
keep-pending cursor vs d (e ∷ es) = elim (Bool-cases (is_in vs e)) [
  | inl q ↦
      let low = is_in-delivered cursor vs e d q in
      rw
        (keep-false (is_kept vs) e es (rw q refl), keep-false (is_after cursor) e es (ground arith))
        (keep-pending cursor vs d es)
  | inr q ↦
      let rest = keep-pending cursor vs d es in
      rw (keep-true (is_kept vs) e es (rw q refl)) (ground (arith, rest))
]

remove-Keeps :
    (cursor : ℤ) (vs : List Event) (o : Outbox) {o' : Outbox}
    → All (λ v. is_delivered cursor v ≡ true) vs
    → IsSound o
    → remove vs o ≡ ok o'
    → Keeps cursor o o'
unfolding remove
remove-Keeps cursor [] o d s h =
    let same : o ≡ _ = ap (λ r. elim r as (λ _. Outbox) [ ok x ↦ x | err e ↦ o ]) h in
    subst (Keeps cursor o) same
      record { high_water = refl; meta = refl; content_keys = refl; sound = s; pending = refl }
remove-Keeps cursor (v ∷ vs) o d s h =
    let (ts, q, same) = remove-eq-ok v vs o h in
    let es = o.events in
    let gone = keep (is_in (v ∷ vs)) es in
    let q' : store_tombstones gone o.tombstones ≡ ok ts =
      subst (λ xs. store_tombstones xs o.tombstones ≡ ok ts)
        (order_by-Above 0 gone (Above-keep (is_in (v ∷ vs)) 0 es s.ordered)) q in
    subst (Keeps cursor o) same record {
      high_water = refl;
      meta = refl;
      content_keys = refl;
      sound = record {
        ordered = Above-keep (is_kept (v ∷ vs)) 0 es s.ordered;
        bounded = All-keep_of _ (is_kept (v ∷ vs)) es s.bounded;
        stamped = All-keep_of _ (is_kept (v ∷ vs)) es s.stamped;
        valid = All-keep_of _ (is_kept (v ∷ vs)) es s.valid;
        unbroken = λ i.
            let split = count-split (is_in (v ∷ vs)) i es in
            let kept = store_tombstones-count i gone o.tombstones q' in
            let same_times : count_events i (keep (is_kept (v ∷ vs)) es) + count_tombstones i ts
                ≡ stored_times i o =
              omega (arith, split, kept) in
            same_times ∙ s.unbroken i;
      };
      pending = keep-pending cursor (v ∷ vs) d es;
    }

victims-Keeps :
    (cursor : ℤ) (older_than : Option ℤ) (max_bytes : Option ℕ) (vacuum : Bool) (storage : Storage)
    (o : Outbox)
    → IsSound o
    → Keeps cursor o (prune_delivered storage cursor older_than max_bytes vacuum o).1
unfolding prune_delivered settle
victims-Keeps cursor older_than max_bytes vacuum storage o s =
    elim (Result-cases (check_arguments cursor max_bytes)) [
      | inr (e, f) ↦ rw (f, prune_delivered) still
      | inl (u, f) ↦
          let vs = victims cursor older_than max_bytes o.events in
          elim (Result-cases (remove vs o)) [
            | inl (o', g) ↦
                rw (f, prune_delivered, g, settle)
                  (remove-Keeps cursor vs o (victims-delivered cursor older_than max_bytes o.events)
                    s g)
            | inr (e, g) ↦ rw (f, prune_delivered, g, settle) still
          ]
    ]
  where
    still : Keeps cursor o o
    still = record {
      high_water = refl;
      meta = refl;
      content_keys = refl;
      sound = s;
      pending = refl;
    }

-- A prune, returning or raising, keeps a sound outbox sound, and the sequence authority, the meta
-- values and the content keys as they were: each pruned sequence has its one tombstone.
pub prune_delivered-IsSound :
    (storage : Storage) (cursor : ℤ) (older_than : Option ℤ) (max_bytes : Option ℕ) (vacuum : Bool)
    (o : Outbox)
    → IsSound o
    → let o' = (prune_delivered storage cursor older_than max_bytes vacuum o).1 in
      IsSound o'
      × (o'.high_water ≡ o.high_water)
      × (o'.meta ≡ o.meta)
      × (o'.content_keys ≡ o.content_keys)
prune_delivered-IsSound storage cursor older_than max_bytes vacuum o s =
    let keeps = victims-Keeps cursor older_than max_bytes vacuum storage o s in
    (keeps.sound, keeps.high_water, keeps.meta, keeps.content_keys)

-- A prune of a sound outbox, whatever its policies, leaves what is still to be delivered: the
-- events that a delivery after the cursor reads are the same before and after.
pub prune_delivered-iter_events :
    (storage : Storage) (cursor : ℤ) (older_than : Option ℤ) (max_bytes : Option ℕ) (vacuum : Bool)
    (o : Outbox)
    → IsSound o
    → iter_events cursor (prune_delivered storage cursor older_than max_bytes vacuum o).1
      ≡ iter_events cursor o
prune_delivered-iter_events storage cursor older_than max_bytes vacuum o s =
    let keeps = victims-Keeps cursor older_than max_bytes vacuum storage o s in
    let o' = (prune_delivered storage cursor older_than max_bytes vacuum o).1 in
    iter_events-keep cursor o' 0 keeps.sound.ordered
    ∙ ap (map (λ (e : Event). e.envelope)) keeps.pending
    ∙ sym (iter_events-keep cursor o 0 s.ordered)

-- The rows that a prune leaves above the cursor are those before it.
pub prune_delivered-pending :
    (storage : Storage) (cursor : ℤ) (older_than : Option ℤ) (max_bytes : Option ℕ) (vacuum : Bool)
    (o : Outbox)
    → IsSound o
    → keep (is_after cursor) (prune_delivered storage cursor older_than max_bytes vacuum o).1.events
      ≡ keep (is_after cursor) o.events
prune_delivered-pending storage cursor older_than max_bytes vacuum o s =
    (victims-Keeps cursor older_than max_bytes vacuum storage o s).pending

module _ (P : Event → Type 0) where
  -- What is left is a part of what was there, in the same installation.
  pub record Thins (o o' : Outbox) : Type 0 where
    pub installation_id : o'.installation_id ≡ o.installation_id
    pub events : All P o'.events

  remove-Thins :
      (vs : List Event) (o : Outbox) {o' : Outbox}
      → All P o.events
      → remove vs o ≡ ok o'
      → Thins o o'
  unfolding remove
  remove-Thins [] o h q =
      subst (Thins o) (ok-injective q) record { installation_id = refl; events = h }
  remove-Thins (v ∷ vs) o h q =
      let (ts, _, same) = remove-eq-ok v vs o q in
      subst (Thins o) same
        record { installation_id = refl; events = All-keep_of P (is_kept (v ∷ vs)) o.events h }

  pub prune_delivered-Thins :
      (storage : Storage) (cursor : ℤ) (older_than : Option ℤ) (max_bytes : Option ℕ)
      (vacuum : Bool) (o : Outbox)
      → All P o.events
      → Thins o (prune_delivered storage cursor older_than max_bytes vacuum o).1
  unfolding prune_delivered settle
  prune_delivered-Thins storage cursor older_than max_bytes vacuum o h =
      let still : Thins o o = record { installation_id = refl; events = h } in
      let vs = victims cursor older_than max_bytes o.events in
      elim (Result-cases (check_arguments cursor max_bytes)) [
        | inr (e, f) ↦ rw (f, prune_delivered) still
        | inl (u, f) ↦ elim (Result-cases (remove vs o)) [
          | inl (o', g) ↦ rw (f, prune_delivered, g, settle) (remove-Thins vs o h g)
          | inr (e, g) ↦ rw (f, prune_delivered, g, settle) still
        ]
      ]
