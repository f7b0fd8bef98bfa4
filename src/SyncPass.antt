-- ===== src/SyncPass.antt =====
-- One sync pass (hermes_flight_recorder/collector/sync_pass.py): push, keys, retention. The state
-- is the outbox with the other side of the transport; `show`, `read`, `storage` and the clock are
-- as in Retention. The detail texts of a result are not modelled.
pub mod Safety
pub mod Stops
use hermes_flight_recorder.Base.{
  ltb, leb, eqb, if◌then◌else◌, ltb→lt, lt→ltb, le→ltb, leb→le, Bool-cases, Option-cases, length,
  take, drop, concat, All, any, keep, length-append, take-append-drop, length-take-le, All-append,
  All-left, All-right, All-map, All-apply, keep-true, keep-false, cons-injective, ℤ, pos, negsuc,
  pos_part, neg_part, ◌+ℤ◌, ◌-ℤ◌, ◌≤ℤ◌, ◌<ℤ◌, le_int, lt_int, eq_int, max_int, eq_of_parts,
  <ℤ_trans, str_nat, int_nat, int_nat-str_nat, str_int, int_text, int_text-str_int, ℕ, zero, suc,
  ◌+◌, ◌-◌, ◌*◌, ◌/◌, ◌%◌, ◌^◌, ◌≤◌, ◌<◌, compare, Ordering, min, max, Char, code, String, ◌≡◌,
  refl, sym, ap, ◌∙◌, subst, fun_ext, ◌≢◌, ◌↔◌, ◌⊎◌, inl, inr, Bool, true, false, ◌&&◌, ◌||◌, not,
  Option, none, some, List, [], ◌∷◌, ◌++◌, map, append-nil, append_assoc, arith, ◌==◌, eq_iff,
  eq_refl,
}
use hermes_flight_recorder.Result.{Result, ok, err, terminal_error, retention_error}
use hermes_flight_recorder.Exec.{Exec, pure, ◌>>=◌}
use hermes_flight_recorder.Outbox.State.{Outbox}
use hermes_flight_recorder.Outbox.Prune.{Storage, PruneResult}
use hermes_flight_recorder.Retention.{RetentionConfig, maybe_prune}
use hermes_flight_recorder.Sync.Batches.{Batch, Limits, default_max_records}
use hermes_flight_recorder.Sync.Deliver.{Ack, SyncResult, delivery_cursor}
use hermes_flight_recorder.Sync.Keys.{KeyAck, KeySyncResult}
use hermes_flight_recorder.Transport.{
  PushOutcome, delivered, offline, auth, cancelled, push, push_content_keys,
}

-- The strings of `reason`: "ok", "offline", "auth", "cancelled" and "terminal"
pub data Reason : Type 0 where
  ok_reason offline_reason auth_reason cancelled_reason terminal_reason : Reason

pub record SyncPassResult : Type 0 where
  pub outcome : Reason
  pub acked : ℤ
  pub delivery_cursor : ℤ
  pub pending : ℤ
  pub key_outcome : Option Reason
  pub keys_sent : ℕ
  pub pruned : Option PruneResult
  pub prune_error : Bool

-- The try statement around a push: a terminal error is a reason, any other propagates.
unfoldable pub reason_of : {A : Type 0} → Result (PushOutcome A) → Result Reason
reason_of (ok (delivered a)) = ok ok_reason
reason_of (ok offline) = ok offline_reason
reason_of (ok auth) = ok auth_reason
reason_of (ok cancelled) = ok cancelled_reason
reason_of (err terminal_error) = ok terminal_reason
reason_of (err e) = err e

-- reason in ("cancelled", "terminal")
abbrev pub is_stopped : Reason → Bool
is_stopped cancelled_reason = true
is_stopped terminal_reason = true
is_stopped _ = false

-- keys.result.keys_sent, where there is a result
unfoldable pub keys_sent_of : Result (PushOutcome KeySyncResult) → ℕ
keys_sent_of (ok (delivered result)) = result.keys_sent
keys_sent_of _ = 0

-- except RetentionError
unfoldable pub caught : Result (Option PruneResult) → Result (Option PruneResult × Bool)
caught (ok pruned) = ok (pruned, false)
caught (err retention_error) = ok (none, true)
caught (err e) = err e

-- AUTO_PRUNE_INTERVAL_SECONDS, the default of maybe_prune, in microseconds
abbrev pub auto_prune_interval : ℕ
auto_prune_interval = 21600000000

module _ {T : Type 0} (send : Batch → T → Result Ack × T)
    (send_keys : Batch → T → Result KeyAck × T) (show : ℕ → String) (read : String → Option ℕ)
    (storage : Storage) (now : ℕ) where
  pub read_cursor : Exec (Outbox × T) ℤ
  read_cursor (o, t) = (delivery_cursor o, (o, t))

  pub read_high_water : Exec (Outbox × T) ℕ
  read_high_water (o, t) = (ok o.high_water, (o, t))

  unfoldable pub push_events : Limits → Option ℕ → Exec (Outbox × T) Reason
  unfolding reason_of push
  push_events l max_batches (o, t) =
      let (r, o', t') = push send l max_batches o t in (reason_of r, (o', t'))

  pub push_keys : Option ℕ → Exec (Outbox × T) (Option Reason × ℕ)
  push_keys max_batches (o, t) =
      let (r, o', t') = push_content_keys send_keys now default_max_records max_batches o t in
      (
        elim (reason_of r) [ ok reason ↦ ok (some reason, keys_sent_of r) | err e ↦ err e ],
        (o', t'),
      )

  pub ship_keys : Option ℕ → Reason → Exec (Outbox × T) (Option Reason × ℕ)
  ship_keys max_batches reason = if is_stopped reason then pure (none, 0) else push_keys max_batches

  pub retain : RetentionConfig → Exec (Outbox × T) (Option PruneResult × Bool)
  retain config (o, t) =
      let (r, o') = maybe_prune show read storage config auto_prune_interval now o in
      (caught r, (o', t))

  pub run_retention :
      Option RetentionConfig → Reason → Exec (Outbox × T) (Option PruneResult × Bool)
  run_retention none _ = pure (none, false)
  run_retention (some config) reason =
      if is_stopped reason then pure (none, false) else retain config

  pub after_push : Option ℕ → Option RetentionConfig → ℤ → Reason → Exec (Outbox × T) SyncPassResult
  after_push max_batches config before reason = do
    after ← read_cursor
    high_water ← read_high_water
    keys ← ship_keys max_batches reason
    retention ← run_retention config reason
    pure record {
      outcome = reason;
      acked = after -ℤ before;
      delivery_cursor = after;
      pending = pos high_water -ℤ after;
      key_outcome = keys.0;
      keys_sent = keys.1;
      pruned = retention.0;
      prune_error = retention.1;
    }

  -- run_sync_pass(outbox, transport, max_records=..., max_bytes=..., max_batches=..., retention_config=...)
  unfoldable pub run_sync_pass :
      Limits → Option ℕ → Option RetentionConfig → Exec (Outbox × T) SyncPassResult
  unfolding reason_of caught keys_sent_of read_cursor read_high_water push_events push_keys
      ship_keys retain run_retention after_push
  run_sync_pass l max_batches config = do
    before ← read_cursor
    reason ← push_events l max_batches
    after_push max_batches config before reason
