-- ===== src/SyncPass/Safety.antt =====
-- No pass loses an event or a key.
use hermes_flight_recorder.Base.{
  Bool-cases, All, All-map, ℤ, pos, ◌≤ℤ◌, ℕ, String, ◌≡◌, refl, ◌∙◌, ◌⊎◌, inl, inr, true, Option,
  none, some, List, arith,
}
use hermes_flight_recorder.Value.{Fields}
use hermes_flight_recorder.Result.{Result}
use hermes_flight_recorder.Exec.{>>=-keeps}
use hermes_flight_recorder.Outbox.State.{
  Event, Outbox, get_cursor, get_meta, set_meta, lookup-upsert,
}
use hermes_flight_recorder.Outbox.Order.{is_after}
use hermes_flight_recorder.Outbox.Sound.{IsSound}
use hermes_flight_recorder.Outbox.Among.{IsAmong, IsAmong-All, IsAmong-keep, keep-IsAmong}
use hermes_flight_recorder.Outbox.Prune.{Storage, prune_delivered}
use hermes_flight_recorder.Outbox.Prune.Keeps.{
  prune_delivered-IsSound, prune_delivered-pending, prune_delivered-Thins,
}
use hermes_flight_recorder.Retention.{RetentionConfig, cutoff_of, last_auto_prune_key}
use hermes_flight_recorder.Retention.Invariant.{maybe_prune-keeps}
use hermes_flight_recorder.Sync.Batches.{Batch, Limits, default_max_records}
use hermes_flight_recorder.Sync.Deliver.{Ack, delivery_cursor, sync}
use hermes_flight_recorder.Sync.Deliver.Safety.{IsDurable, IsCursorSafe, sync-IsCursorSafe}
use hermes_flight_recorder.Sync.Deliver.Frame.{IsSound-SameButMeta, sync-Frame}
use hermes_flight_recorder.Sync.Keys.{KeyAck, sync_content_keys}
use hermes_flight_recorder.Sync.Keys.Shipped.{
  IsKeyDurable, IsShipSafe, sync_content_keys-IsShipSafe,
}
use hermes_flight_recorder.Sync.Keys.Frame.{sync_content_keys-transport}
use hermes_flight_recorder.Transport.{push, push_content_keys}
use hermes_flight_recorder.SyncPass.{
  Reason, is_stopped, read_cursor, read_high_water, push_events, push_keys, ship_keys, retain,
  run_retention, after_push, run_sync_pass, auto_prune_interval,
}

-- The service behind both channels: it acknowledges what it durably holds, and loses nothing.
pub record IsService {T : Type 0} (send : Batch → T → Result Ack × T)
    (send_keys : Batch → T → Result KeyAck × T) (event_holds : T → Fields → Type 0)
    (key_holds : T → String → String → Type 0) : Type 0 where
  pub events : IsDurable send event_holds
  pub keys : IsKeyDurable send_keys key_holds
  pub events_kept :
      (b : Batch) (t : T) (r : Fields) → event_holds t r → event_holds (send_keys b t).1 r
  pub keys_kept :
      (b : Batch) (t : T) (id version : String)
      → key_holds t id version
      → key_holds (send b t).1 id version

-- An event is held by the service or still in the outbox.
abbrev pub IsKept : {T : Type 0} → (T → Fields → Type 0) → Outbox × T → Event → Type 0
IsKept event_holds x e = event_holds x.1 e.envelope ⊎ IsAmong e x.0.events

-- A sound outbox whose cursor and marks say no more than the service holds.
pub record IsSafePair {T : Type 0} (event_holds : T → Fields → Type 0)
    (key_holds : T → String → String → Type 0) (x : Outbox × T) : Type 0 where
  pub sound : IsSound x.0
  pub cursor_safe : IsCursorSafe event_holds x.0 x.1
  pub ship_safe : IsShipSafe key_holds x.0.installation_id x.0.content_keys x.1

-- What a pass keeps, from the outbox `es` it began with.
record PassKeeps {T : Type 0} (event_holds : T → Fields → Type 0)
    (key_holds : T → String → String → Type 0) (es : List Event) (x : Outbox × T) : Type 0 where
  safe : IsSafePair event_holds key_holds x
  kept : All (IsKept event_holds x) es

set_meta-delivery_cursor :
    (value : String) (o : Outbox)
    → delivery_cursor (set_meta last_auto_prune_key value o) ≡ delivery_cursor o
unfolding delivery_cursor get_cursor get_meta set_meta
set_meta-delivery_cursor value o = rw (lookup-upsert _ last_auto_prune_key value o.meta) refl

same_cursor : (o o' : Outbox) → o'.meta ≡ o.meta → delivery_cursor o' ≡ delivery_cursor o
unfolding delivery_cursor get_cursor get_meta
same_cursor o o' h = rw h refl

IsSound-SameTables :
    (o o' : Outbox)
    → o'.high_water ≡ o.high_water
    → o'.events ≡ o.events
    → o'.tombstones ≡ o.tombstones
    → IsSound o
    → IsSound o'
IsSound-SameTables o o' h e d s = record {
  ordered = rw e s.ordered;
  bounded = rw (e, h) s.bounded;
  stamped = rw e s.stamped;
  valid = rw e s.valid;
  unbroken = λ i. rw (e, d, h) (s.unbroken i);
}

module _ {T : Type 0} (send : Batch → T → Result Ack × T)
    (send_keys : Batch → T → Result KeyAck × T) (event_holds : T → Fields → Type 0)
    (key_holds : T → String → String → Type 0)
    (service : IsService send send_keys event_holds key_holds) (es : List Event) where
  abbrev Keeps : Outbox × T → Type 0
  Keeps x = PassKeeps event_holds key_holds es x

  push-Keeps :
      (l : Limits) (max_batches : Option ℕ) (o : Outbox) (t : T)
      → Keeps (o, t)
      → let p = sync send l max_batches o t in Keeps (p.1, p.2)
  push-Keeps l max_batches o t k =
      let s = k.safe in
      let p = sync send l max_batches o t in
      let frame = (sync-Frame send (λ _. Unit {0}) (λ b t u. u) l max_batches o t tt).0 in
      let cursor =
        sync-IsCursorSafe send event_holds service.events l max_batches 0 o t s.sound.ordered
          s.sound.stamped s.cursor_safe in
      record {
        safe = record {
          sound = IsSound-SameButMeta o p.1 frame s.sound;
          cursor_safe = cursor.0;
          ship_safe =
              rw (frame.installation_id, frame.content_keys)
                (All-map _ _
                  (λ key h. elim h [
                    | inl n ↦ inl n
                    | inr held ↦ inr (
                        (sync-Frame send (λ t. key_holds t o.installation_id key.key_version)
                          (λ b t. service.keys_kept b t o.installation_id key.key_version) l
                          max_batches o t held).1)
                  ])
                  o.content_keys s.ship_safe);
        };
        kept =
            All-map _ _
              (λ (e : Event) h. elim h [
                | inl held ↦ inl (
                    (sync-Frame send (λ t. event_holds t e.envelope)
                      (λ b t. service.events.keeps b t e.envelope) l max_batches o t held).1)
                | inr among ↦ inr (rw frame.events among)
              ])
              es k.kept;
      }

  ship-Keeps :
      (now max_records : ℕ) (max_batches : Option ℕ) (o : Outbox) (t : T)
      → Keeps (o, t)
      → let p = sync_content_keys send_keys now max_records max_batches o t in Keeps (p.1, p.2)
  ship-Keeps now max_records max_batches o t k =
      let s = k.safe in
      let p = sync_content_keys send_keys now max_records max_batches o t in
      let (ships, same) =
        sync_content_keys-IsShipSafe send_keys key_holds service.keys now max_records max_batches o
          t s.ship_safe in
      let held_after : (r : Fields) → event_holds t r → event_holds p.2 r = λ r.
        sync_content_keys-transport send_keys now (λ t. event_holds t r)
          (λ b t. service.events_kept b t r) max_records max_batches o t in
      record {
        safe = record {
          sound = IsSound-SameTables o p.1 same.high_water same.events same.tombstones s.sound;
          cursor_safe = record {
            cursor = s.cursor_safe.cursor;
            stored = same_cursor o p.1 same.meta ∙ s.cursor_safe.stored;
            delivered = rw same.events (
                All-map
                  (λ (e : Event).
                    pos e.producer_sequence ≤ℤ s.cursor_safe.cursor → event_holds t e.envelope)
                  _ (λ (e : Event) h low. held_after e.envelope (h low)) o.events
                  s.cursor_safe.delivered);
          };
          ship_safe = rw same.installation_id ships;
        };
        kept =
            All-map _ _
              (λ (e : Event) h. elim h [
                | inl held ↦ inl (held_after e.envelope held)
                | inr among ↦ inr (rw same.events among)
              ])
              es k.kept;
      }

  -- What a prune at the cursor leaves
  prune-Keeps :
      (storage : Storage) (older_than : Option ℤ) (max_bytes : Option ℕ) (o : Outbox) (t : T)
      (k : Keeps (o, t))
      → Keeps ((prune_delivered storage k.safe.cursor_safe.cursor older_than max_bytes true o).1, t)
  prune-Keeps storage older_than max_bytes o t k =
      let s = k.safe in
      let c = s.cursor_safe.cursor in
      let o' = (prune_delivered storage c older_than max_bytes true o).1 in
      let (sound, _, meta, keys) =
        prune_delivered-IsSound storage c older_than max_bytes true o s.sound in
      let thins =
        prune_delivered-Thins
          (λ (e : Event). pos e.producer_sequence ≤ℤ c → event_holds t e.envelope) storage c
          older_than max_bytes true o s.cursor_safe.delivered in
      let pending = prune_delivered-pending storage c older_than max_bytes true o s.sound in
      record {
        safe = record {
          sound = sound;
          cursor_safe = record {
            cursor = c;
            stored = same_cursor o o' meta ∙ s.cursor_safe.stored;
            delivered = thins.events;
          };
          ship_safe = rw (thins.installation_id, keys) s.ship_safe;
        };
        kept =
            All-map _ _
              (λ (e : Event) h. elim h [
                | inl held ↦ inl held
                | inr among ↦ elim (Bool-cases (is_after c e)) [
                  | inl after ↦ inr (
                      keep-IsAmong (is_after c) o'.events e
                        (rw pending (IsAmong-keep (is_after c) o.events e after among)))
                  | inr low ↦
                      inl (IsAmong-All _ o.events e s.cursor_safe.delivered among (ground arith))
                ]
              ])
              es k.kept;
      }

  note-Keeps :
      (value : String) (o : Outbox) (t : T)
      → Keeps (o, t)
      → Keeps (set_meta last_auto_prune_key value o, t)
  unfolding set_meta
  note-Keeps value o t k =
      let s = k.safe in
      record {
        safe = record {
          sound =
              IsSound-SameTables o (set_meta last_auto_prune_key value o) refl refl refl s.sound;
          cursor_safe = record {
            cursor = s.cursor_safe.cursor;
            stored = set_meta-delivery_cursor value o ∙ s.cursor_safe.stored;
            delivered = s.cursor_safe.delivered;
          };
          ship_safe = s.ship_safe;
        };
        kept = k.kept;
      }

  module _ (show : ℕ → String) (read : String → Option ℕ) (storage : Storage) (now : ℕ) where
    retain-Keeps :
        (config : RetentionConfig) (x : Outbox × T)
        → Keeps x
        → Keeps (retain send send_keys show read storage now config x).1
    unfolding retain
    retain-Keeps config (o, t) k =
        maybe_prune-keeps (λ o'. Keeps (o', t)) storage config now k.safe.cursor_safe.cursor o
          k.safe.cursor_safe.stored k
          (prune-Keeps storage (cutoff_of config.max_age_days now) config.max_bytes o t k)
          (λ value o' h. note-Keeps value o' t h) show read auto_prune_interval

    run_retention-Keeps :
        (config : Option RetentionConfig) (reason : Reason) (x : Outbox × T)
        → Keeps x
        → Keeps (run_retention send send_keys show read storage now config reason x).1
    unfolding run_retention
    run_retention-Keeps none r x k = k
    run_retention-Keeps (some config) r x k = elim (Bool-cases (is_stopped r)) [
      | inl e ↦ rw (e, run_retention) k
      | inr e ↦ rw (e, run_retention) (retain-Keeps config x k)
    ]

    ship_keys-Keeps :
        (max_batches : Option ℕ) (reason : Reason) (x : Outbox × T)
        → Keeps x
        → Keeps (ship_keys send send_keys show read storage now max_batches reason x).1
    unfolding ship_keys push_keys push_content_keys
    ship_keys-Keeps max_batches r (o, t) k = elim (Bool-cases (is_stopped r)) [
      | inl e ↦ rw (e, ship_keys) k
      | inr e ↦ rw (e, ship_keys) (ship-Keeps now default_max_records max_batches o t k)
    ]

    push_events-Keeps :
        (l : Limits) (max_batches : Option ℕ) (x : Outbox × T)
        → Keeps x
        → Keeps (push_events send send_keys show read storage now l max_batches x).1
    unfolding push_events push
    push_events-Keeps l max_batches (o, t) k = push-Keeps l max_batches o t k

    read_cursor-Keeps :
        (x : Outbox × T) → Keeps x → Keeps (read_cursor send send_keys show read storage now x).1
    unfolding read_cursor
    read_cursor-Keeps x k = k

    read_high_water-Keeps :
        (x : Outbox × T)
        → Keeps x
        → Keeps (read_high_water send send_keys show read storage now x).1
    unfolding read_high_water
    read_high_water-Keeps x k = k

    after_push-Keeps :
        (max_batches : Option ℕ) (config : Option RetentionConfig) (before : ℤ) (reason : Reason)
        (x : Outbox × T)
        → Keeps x
        → Keeps
            (after_push send send_keys show read storage now max_batches config before reason x).1
    unfolding after_push
    after_push-Keeps max_batches config before r =
        >>=-keeps Keeps (read_cursor send send_keys show read storage now) _ read_cursor-Keeps
          (λ after.
            >>=-keeps Keeps (read_high_water send send_keys show read storage now) _
              read_high_water-Keeps
              (λ high_water.
                >>=-keeps Keeps (ship_keys send send_keys show read storage now max_batches r) _
                  (ship_keys-Keeps max_batches r)
                  (λ keys.
                    >>=-keeps Keeps (run_retention send send_keys show read storage now config r) _
                      (run_retention-Keeps config r) (λ retention s h. h))))

    run_sync_pass-Keeps :
        (l : Limits) (max_batches : Option ℕ) (config : Option RetentionConfig) (x : Outbox × T)
        → Keeps x
        → Keeps (run_sync_pass send send_keys show read storage now l max_batches config x).1
    unfolding run_sync_pass
    run_sync_pass-Keeps l max_batches config =
        >>=-keeps Keeps (read_cursor send send_keys show read storage now) _ read_cursor-Keeps
          (λ before.
            >>=-keeps Keeps (push_events send send_keys show read storage now l max_batches) _
              (push_events-Keeps l max_batches) (λ r. after_push-Keeps max_batches config before r))

    -- No pass loses an event: over a service that acknowledges only what it durably holds, from an
    -- outbox that is sound, whose delivery cursor passes only held events and whose marked keys are
    -- held, a pass with any limits and retention, however it ends, leaves such an outbox, and each of
    -- the events `es`, if it was held by the service or in the outbox before the pass, is so after it.
    pub run_sync_pass-IsSafePair :
        (l : Limits) (max_batches : Option ℕ) (config : Option RetentionConfig) (x : Outbox × T)
        → IsSafePair event_holds key_holds x
        → All (IsKept event_holds x) es
        → let x' = (run_sync_pass send send_keys show read storage now l max_batches config x).1 in
          IsSafePair event_holds key_holds x' × All (IsKept event_holds x') es
    run_sync_pass-IsSafePair l max_batches config x safe kept =
        let k = run_sync_pass-Keeps l max_batches config x record { safe = safe; kept = kept } in
        (k.safe, k.kept)
