-- ===== src/SyncPass/Stops.antt =====
-- What a pass does after a push that was cancelled or is terminal
use hermes_flight_recorder.Base.{
  Bool, sym, subst, ◌⊎◌, ℤ, ℕ, String, ◌≡◌, refl, ap, ◌∙◌, inl, inr, true, false, Option, none,
  some,
}
use hermes_flight_recorder.Result.{Result, ok, ok-injective}
use hermes_flight_recorder.Exec.{>>=-eq-ok}
use hermes_flight_recorder.Outbox.State.{Outbox}
use hermes_flight_recorder.Outbox.Prune.{Storage, PruneResult}
use hermes_flight_recorder.Retention.{RetentionConfig}
use hermes_flight_recorder.Sync.Batches.{Batch, Limits}
use hermes_flight_recorder.Sync.Deliver.{Ack}
use hermes_flight_recorder.Sync.Keys.{KeyAck}
use hermes_flight_recorder.SyncPass.{
  SyncPassResult, Reason, cancelled_reason, terminal_reason, is_stopped, read_cursor,
  read_high_water, push_events, ship_keys, run_retention, after_push, run_sync_pass,
}

-- The push was cancelled, or its error is terminal.
abbrev pub IsEnded : Reason → Type 0
IsEnded r = (r ≡ cancelled_reason) ⊎ (r ≡ terminal_reason)

-- Nothing but a push is reported.
pub record IsIdle (r : SyncPassResult) : Type 0 where
  pub no_keys : r.key_outcome ≡ none
  pub none_sent : r.keys_sent ≡ 0
  pub not_pruned : r.pruned ≡ none
  pub no_prune_error : r.prune_error ≡ false

IsEnded-is_stopped : (reason : Reason) → IsEnded reason → is_stopped reason ≡ true
IsEnded-is_stopped r (inl q) = rw q refl
IsEnded-is_stopped r (inr q) = rw q refl

module _ {T : Type 0} (send : Batch → T → Result Ack × T)
    (send_keys : Batch → T → Result KeyAck × T) (show : ℕ → String) (read : String → Option ℕ)
    (storage : Storage) (now : ℕ) where
  -- The state that the push leaves is the pass's, and only the push is reported.
  record IsPushOnly (reason : Reason) (x x' : Outbox × T) (r : SyncPassResult) : Type 0 where
    outcome : r.outcome ≡ reason
    idle : is_stopped reason ≡ true → (x' ≡ x) × IsIdle r

  read_cursor-keeps :
      (x : Outbox × T) {c : ℤ} {x' : Outbox × T}
      → read_cursor send send_keys show read storage now x ≡ (ok c, x')
      → x' ≡ x
  unfolding read_cursor
  read_cursor-keeps (o, t) q = sym (ap (λ (y : Result ℤ × (Outbox × T)). y.1) q)

  read_high_water-keeps :
      (x : Outbox × T) {n : ℕ} {x' : Outbox × T}
      → read_high_water send send_keys show read storage now x ≡ (ok n, x')
      → x' ≡ x
  unfolding read_high_water
  read_high_water-keeps (o, t) q = sym (ap (λ (y : Result ℕ × (Outbox × T)). y.1) q)

  ship_keys-stopped :
      (max_batches : Option ℕ) (reason : Reason) (x : Outbox × T)
      → is_stopped reason ≡ true
      → ship_keys send send_keys show read storage now max_batches reason x ≡ (ok (none, 0), x)
  unfolding ship_keys
  ship_keys-stopped max_batches r x h = rw h refl

  run_retention-stopped :
      (config : Option RetentionConfig) (reason : Reason) (x : Outbox × T)
      → is_stopped reason ≡ true
      → run_retention send send_keys show read storage now config reason x ≡ (ok (none, false), x)
  unfolding run_retention
  run_retention-stopped none r x h = refl
  run_retention-stopped (some config) r x h = rw h refl

  after_push-IsPushOnly :
      (max_batches : Option ℕ) (config : Option RetentionConfig) (before : ℤ) (reason : Reason)
      (x : Outbox × T) {r : SyncPassResult} {x' : Outbox × T}
      → after_push send send_keys show read storage now max_batches config before reason x
        ≡ (ok r, x')
      → IsPushOnly reason x x' r
  unfolding after_push
  after_push-IsPushOnly max_batches config before reason x {r} {x'} h =
      let (after, x₁, q₁, h₁) =
        >>=-eq-ok (read_cursor send send_keys show read storage now) _ x h in
      let (high_water, x₂, q₂, h₂) =
        >>=-eq-ok (read_high_water send send_keys show read storage now) _ x₁ h₁ in
      let (keys, x₃, q₃, h₃) =
        >>=-eq-ok (ship_keys send send_keys show read storage now max_batches reason) _ x₂ h₂ in
      let (retention, x₄, q₄, h₄) =
        >>=-eq-ok (run_retention send send_keys show read storage now config reason) _ x₃ h₃ in
      let result : ok _ ≡ ok r = ap (λ (y : Result SyncPassResult × (Outbox × T)). y.0) h₄ in
      let made = ok-injective result in
      record {
        outcome = sym (ap (λ (y : SyncPassResult). y.outcome) made);
        idle = λ s.
            let k = sym (ship_keys-stopped max_batches reason x₂ s) ∙ q₃ in
            let l = sym (run_retention-stopped config reason x₃ s) ∙ q₄ in
            let keys_are =
              ok-injective (ap (λ (y : Result (Option Reason × ℕ) × (Outbox × T)). y.0) k) in
            let retention_is =
              ok-injective
                (ap (λ (y : Result (Option PruneResult × Bool) × (Outbox × T)). y.0) l) in
            (
              sym (ap (λ (y : Result SyncPassResult × (Outbox × T)). y.1) h₄)
                  ∙ sym (ap (λ (y : Result (Option PruneResult × Bool) × (Outbox × T)). y.1) l)
                  ∙ sym (ap (λ (y : Result (Option Reason × ℕ) × (Outbox × T)). y.1) k)
                  ∙ read_high_water-keeps x₁ q₂
                  ∙ read_cursor-keeps x q₁,
              record {
                no_keys =
                    sym (ap (λ (y : SyncPassResult). y.key_outcome) made)
                    ∙ sym (ap (λ (y : Option Reason × ℕ). y.0) keys_are);
                none_sent =
                    sym (ap (λ (y : SyncPassResult). y.keys_sent) made)
                    ∙ sym (ap (λ (y : Option Reason × ℕ). y.1) keys_are);
                not_pruned =
                    sym (ap (λ (y : SyncPassResult). y.pruned) made)
                    ∙ sym (ap (λ (y : Option PruneResult × Bool). y.0) retention_is);
                no_prune_error =
                    sym (ap (λ (y : SyncPassResult). y.prune_error) made)
                    ∙ sym (ap (λ (y : Option PruneResult × Bool). y.1) retention_is);
              },
            );
      }

  -- The report of a pass tells whether its push ended it: where a pass returns, its outcome is the
  -- reason of the push; and where that outcome is cancelled or terminal, the pass reports no keys
  -- and no retention, and leaves the outbox and the service as the push left them.
  pub run_sync_pass-stopped :
      (l : Limits) (max_batches : Option ℕ) (config : Option RetentionConfig) (x x' : Outbox × T)
      (r : SyncPassResult)
      → run_sync_pass send send_keys show read storage now l max_batches config x ≡ (ok r, x')
      → let pushed = push_events send send_keys show read storage now l max_batches x in
        (pushed.0 ≡ ok r.outcome) × (IsEnded r.outcome → (x' ≡ pushed.1) × IsIdle r)
  unfolding run_sync_pass
  run_sync_pass-stopped l max_batches config x x' r h =
      let (before, x₁, q₁, h₁) =
        >>=-eq-ok (read_cursor send send_keys show read storage now) _ x h in
      let (reason, x₂, q₂, h₂) =
        >>=-eq-ok (push_events send send_keys show read storage now l max_batches) _ x₁ h₁ in
      let pushed =
        ap (push_events send send_keys show read storage now l max_batches)
          (sym (read_cursor-keeps x q₁))
        ∙ q₂ in
      let k = after_push-IsPushOnly max_batches config before reason x₂ h₂ in
      (
        ap (λ (y : Result Reason × (Outbox × T)). y.0) pushed ∙ ap ok (sym k.outcome),
        λ ended.
            let (same, idle) =
              k.idle
                (subst (λ c. is_stopped c ≡ true) k.outcome (IsEnded-is_stopped r.outcome ended)) in
            (same ∙ sym (ap (λ (y : Result Reason × (Outbox × T)). y.1) pushed), idle),
      )
