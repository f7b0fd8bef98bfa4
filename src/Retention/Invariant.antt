-- ===== src/Retention/Invariant.antt =====
-- What every prune and every meta value keeps, automatic retention keeps.
use hermes_flight_recorder.Base.{
  eqb, Bool-cases, ℤ, ℕ, String, ◌≡◌, inl, inr, true, ◌&&◌, not, Option, ◌==◌,
}
use hermes_flight_recorder.Result.{Result, ok, err}
use hermes_flight_recorder.Outbox.State.{Outbox, set_meta}
use hermes_flight_recorder.Outbox.Prune.{Storage, PruneResult, prune_delivered}
use hermes_flight_recorder.Sync.Deliver.{delivery_cursor}
use hermes_flight_recorder.Retention.{
  RetentionConfig, cutoff_of, as_retention_error, try_prune, prune, note_run, last_run, is_recent,
  last_auto_prune_key, maybe_prune,
}

module _ (I : Outbox → Type 0) (storage : Storage) (config : RetentionConfig) (now : ℕ) (c : ℤ)
    (o : Outbox) (cursor : delivery_cursor o ≡ ok c) (before : I o)
    (pruned : I
      (prune_delivered storage c (cutoff_of config.max_age_days now) config.max_bytes true o).1)
    (noted : (value : String) (o' : Outbox)
      → I o'
      → I (set_meta last_auto_prune_key value o')) where
  raised-keeps : (x : Result PruneResult × Outbox) → I x.1 → I (as_retention_error x).1
  unfolding as_retention_error
  raised-keeps (ok r, o') h = h
  raised-keeps (err e, o') h = h

  prune-keeps : I (prune storage config now o).1
  unfolding prune try_prune
  prune-keeps = elim (Bool-cases (not config.enabled)) [
    | inl f ↦ rw (f, prune) before
    | inr f ↦ elim (Bool-cases (not (config.require_delivered && config.vacuum == "auto"))) [
      | inl g ↦ rw (f, g, prune) before
      | inr g ↦
          rw (f, g, prune)
            (raised-keeps (try_prune storage config now o) (rw (cursor, try_prune) pruned))
    ]
  ]

  noted-keeps :
      (value : String) (x : Result (Option PruneResult) × Outbox) → I x.1 → I (note_run value x).1
  unfolding note_run
  noted-keeps value (ok r, o') h = noted value o' h
  noted-keeps value (err e, o') h = h

  pub maybe_prune-keeps :
      (show : ℕ → String) (read : String → Option ℕ) (interval : ℕ)
      → I (maybe_prune show read storage config interval now o).1
  unfolding maybe_prune
  maybe_prune-keeps show read interval = elim (Bool-cases (not config.enabled)) [
    | inl f ↦ rw (f, maybe_prune) before
    | inr f ↦ elim (Bool-cases (eqb interval 0)) [
      | inl g ↦ rw (f, g, maybe_prune) before
      | inr g ↦ elim (Bool-cases (is_recent show read (last_run show read o) interval now)) [
        | inl r ↦ rw (f, g, r, maybe_prune) before
        | inr r ↦
            rw (f, g, r, maybe_prune)
              (noted-keeps (show now) (prune storage config now o) prune-keeps)
      ]
    ]
  ]
