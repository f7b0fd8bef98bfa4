-- ===== src/Retention/Safety.antt =====
-- What retention leaves alone, and how often it runs.
use hermes_flight_recorder.Base.{
  eqb, Bool-cases, ℤ, ℕ, String, ◌≡◌, refl, inl, inr, true, ◌&&◌, not, Option, ◌==◌,
}
use hermes_flight_recorder.Result.{Result, ok, err}
use hermes_flight_recorder.Outbox.State.{Outbox, set_meta, iter_events}
use hermes_flight_recorder.Outbox.Sound.{IsSound}
use hermes_flight_recorder.Outbox.Prune.{Storage, PruneResult}
use hermes_flight_recorder.Outbox.Prune.Keeps.{prune_delivered-IsSound, prune_delivered-iter_events}
use hermes_flight_recorder.Sync.Deliver.{delivery_cursor}
use hermes_flight_recorder.Retention.{
  RetentionConfig, cutoff_of, as_retention_error, try_prune, prune, note_run, last_run, is_recent,
  maybe_prune,
}

-- What is left for delivery after the cursor `c`.
record Leaves (c : ℤ) (o o' : Outbox) : Type 0 where
  sound : IsSound o'
  pending : iter_events c o' ≡ iter_events c o

Leaves-refl : (c : ℤ) (o : Outbox) → IsSound o → Leaves c o o
Leaves-refl c o s = record { sound = s; pending = refl }

as_retention_error-outbox : (x : Result PruneResult × Outbox) → (as_retention_error x).1 ≡ x.1
unfolding as_retention_error
as_retention_error-outbox (ok r, o) = refl
as_retention_error-outbox (err e, o) = refl

prune-Leaves :
    (storage : Storage) (config : RetentionConfig) (now : ℕ) (c : ℤ) (o : Outbox)
    → delivery_cursor o ≡ ok c
    → IsSound o
    → Leaves c o (prune storage config now o).1
unfolding prune try_prune
prune-Leaves storage config now c o q s = elim (Bool-cases (not config.enabled)) [
  | inl f ↦ rw (f, prune) (Leaves-refl c o s)
  | inr f ↦ elim (Bool-cases (not (config.require_delivered && config.vacuum == "auto"))) [
    | inl g ↦ rw (f, g, prune) (Leaves-refl c o s)
    | inr g ↦
        let cutoff = cutoff_of config.max_age_days now in
        let sound = prune_delivered-IsSound storage c cutoff config.max_bytes true o s in
        let pending = prune_delivered-iter_events storage c cutoff config.max_bytes true o s in
        rw (f, g, prune, as_retention_error-outbox (try_prune storage config now o))
          (rw (q, try_prune) record { sound = sound.0; pending = pending })
  ]
]

note_run-Leaves :
    (c : ℤ) (now_text : String) (o : Outbox) (x : Result (Option PruneResult) × Outbox)
    → Leaves c o x.1
    → Leaves c o (note_run now_text x).1
unfolding note_run set_meta iter_events
note_run-Leaves c now_text o (ok r, o') k = record {
  sound = record {
    ordered = k.sound.ordered;
    bounded = k.sound.bounded;
    stamped = k.sound.stamped;
    valid = k.sound.valid;
    unbroken = k.sound.unbroken;
  };
  pending = k.pending;
}
note_run-Leaves c now_text o (err e, o') k = k

-- Automatic retention, under any configuration and at any time, returning or raising, keeps a
-- sound outbox whose delivery cursor can be read sound, and leaves every event that is still to
-- be delivered.
pub maybe_prune-Leaves :
    (show : ℕ → String) (read : String → Option ℕ) (storage : Storage) (config : RetentionConfig)
    (interval now : ℕ) (c : ℤ) (o : Outbox)
    → delivery_cursor o ≡ ok c
    → IsSound o
    → let o' = (maybe_prune show read storage config interval now o).1 in
      IsSound o' × (iter_events c o' ≡ iter_events c o)
unfolding maybe_prune
maybe_prune-Leaves show read storage config interval now c o q s =
    let k = leaves in (k.sound, k.pending)
  where
    leaves : Leaves c o (maybe_prune show read storage config interval now o).1
    leaves = elim (Bool-cases (not config.enabled)) [
      | inl f ↦ rw (f, maybe_prune) (Leaves-refl c o s)
      | inr f ↦ elim (Bool-cases (eqb interval 0)) [
        | inl g ↦ rw (f, g, maybe_prune) (Leaves-refl c o s)
        | inr g ↦ elim (Bool-cases (is_recent show read (last_run show read o) interval now)) [
          | inl r ↦ rw (f, g, r, maybe_prune) (Leaves-refl c o s)
          | inr r ↦
              rw (f, g, r, maybe_prune)
                (note_run-Leaves c (show now) o (prune storage config now o)
                  (prune-Leaves storage config now c o q s))
        ]
      ]
    ]
