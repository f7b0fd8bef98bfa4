-- ===== src/Retention/Rate.antt =====
-- How often automatic retention runs.
use hermes_flight_recorder.Base.{
  eqb, lt→ltb, Bool-cases, ℕ, ◌+◌, ◌≤◌, ◌<◌, String, ◌≡◌, refl, sym, ap, ◌∙◌, subst, inl, inr, true,
  false, Option, none, some, arith,
}
use hermes_flight_recorder.Result.{Result, ok, err}
use hermes_flight_recorder.Outbox.State.{Outbox, get_meta, set_meta, lookup-upsert}
use hermes_flight_recorder.Outbox.Prune.{Storage, PruneResult}
use hermes_flight_recorder.Retention.{
  RetentionConfig, last_auto_prune_key, prune, note_run, last_run, is_recent, maybe_prune,
}

module _ (show : ℕ → String) (read : String → Option ℕ) where
  last_run-noted :
      (now : ℕ) (o : Outbox)
      → last_run show read (set_meta last_auto_prune_key (show now) o) ≡ read (show now)
  unfolding last_run get_meta set_meta
  last_run-noted now o =
      let q : get_meta last_auto_prune_key (set_meta last_auto_prune_key (show now) o)
          ≡ some (show now) =
        lookup-upsert last_auto_prune_key last_auto_prune_key (show now) o.meta in
      ap (λ (x : Option String). elim x as (λ _. Option ℕ) [ none ↦ none | some raw ↦ read raw ]) q

  note_run-noted :
      (now : ℕ) (x : Result (Option PruneResult) × Outbox) {result : Option PruneResult}
      {o' : Outbox}
      → note_run (show now) x ≡ (ok result, o')
      → last_run show read o' ≡ read (show now)
  unfolding note_run
  note_run-noted now (ok r, o) {o' = o'} h =
      subst (λ (x : Outbox). last_run show read x ≡ read (show now))
        (ap (λ (x : Result (Option PruneResult) × Outbox). x.1) h) (last_run-noted now o)
  note_run-noted now (err e, o) h = absurd cc

  waits :
      (storage : Storage) (config : RetentionConfig) (interval now last : ℕ) (o : Outbox)
      → config.enabled ≡ true
      → 1 ≤ interval
      → last_run show read o ≡ some last
      → now < last + interval
      → maybe_prune show read storage config interval now o ≡ (ok none, o)
  unfolding maybe_prune is_recent
  waits storage config interval now last o f g q h =
      let nonzero : eqb interval 0 ≡ false = ground arith in
      rw (f, nonzero, q, lt→ltb now (last + interval) h, maybe_prune, is_recent) refl

  runs :
      (storage : Storage) (config : RetentionConfig) (interval now : ℕ) (o : Outbox)
      → config.enabled ≡ true
      → eqb interval 0 ≡ false
      → is_recent show read (last_run show read o) interval now ≡ false
      → maybe_prune show read storage config interval now o
        ≡ note_run (show now) (prune storage config now o)
  unfolding maybe_prune
  runs storage config interval now o f g r = rw (f, g, r, maybe_prune) refl

  -- Where a float is read back from its text, retention is enabled and the interval is not 0:
  -- after an automatic prune ran, no other runs, and nothing changes, before the interval is
  -- over.
  pub maybe_prune-waits :
      (storage : Storage) (config : RetentionConfig) (interval now now₂ : ℕ) (o : Outbox)
      {result : PruneResult} {o' : Outbox}
      → read (show now) ≡ some now
      → config.enabled ≡ true
      → 1 ≤ interval
      → maybe_prune show read storage config interval now o ≡ (ok (some result), o')
      → now₂ < now + interval
      → maybe_prune show read storage config interval now₂ o' ≡ (ok none, o')
  unfolding maybe_prune
  maybe_prune-waits storage config interval now now₂ o {o' = o'} back f g h later =
      let nonzero : eqb interval 0 ≡ false = ground arith in
      elim (Bool-cases (is_recent show read (last_run show read o) interval now)) [
        | inl r ↦ absurd (cc (rw (f, nonzero, r, maybe_prune) at h))
        | inr r ↦
            let h' = sym (runs storage config interval now o f nonzero r) ∙ h in
            waits storage config interval now₂ now o' f g
              (note_run-noted now (prune storage config now o) h' ∙ back) later
      ]
