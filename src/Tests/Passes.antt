-- ===== src/Tests/Passes.antt =====
-- Runs of the two delivery channels and of a sync pass.
use hermes_flight_recorder.Base.{
  false, All, pos, str_nat, int_nat, str_int, ◌≡◌, refl, inl, inr, none, some, [], ◌∷◌, arith,
}
use hermes_flight_recorder.Value.{find}
use hermes_flight_recorder.Value.Json.{dumps}
use hermes_flight_recorder.Result.{Result, ok, err, terminal_error}
use hermes_flight_recorder.Envelope.{validate}
use hermes_flight_recorder.Outbox.State.{Event, Outbox, ContentKey, iter_events, get_cursor}
use hermes_flight_recorder.Outbox.Sound.{IsSound}
use hermes_flight_recorder.Sync.Batches.{Batch, build_batches}
use hermes_flight_recorder.Sync.Batches.Contents.{batch_records, build_batches_ok_iff}
use hermes_flight_recorder.Sync.Deliver.{Ack, SyncResult, sync, delivery_cursor}
use hermes_flight_recorder.Sync.Ledger.{
  Ledger, new_ledger, send_to, send_keys_to, Holds, HoldsKey, send-IsDurable,
  send_keys-IsKeyDurable, send_keys-Holds, send-HoldsKey, send_to-IsReliable,
}
use hermes_flight_recorder.Sync.Deliver.Reliable.{sync-delivers}
use hermes_flight_recorder.Sync.Keys.{key_record, sync_content_keys, build_key_batches}
use hermes_flight_recorder.Sync.Keys.Grouping.{build_key_batches_complete, IsOf}
use hermes_flight_recorder.Sync.Keys.Shipped.{
  IsShipSafe, SameButMarks, sync_content_keys-IsShipSafe,
}
use hermes_flight_recorder.SyncPass.{SyncPassResult, terminal_reason, push_events, run_sync_pass}
use hermes_flight_recorder.SyncPass.Safety.{IsService, IsKept, IsSafePair, run_sync_pass-IsSafePair}
use hermes_flight_recorder.SyncPass.Stops.{IsEnded, IsIdle, run_sync_pass-stopped}
use hermes_flight_recorder.Tests.{one, one-IsSound, storage, limits, config}

-- One event and one key, both to be sent.
abbrev key : ContentKey
key = record {
  key_version = "k1";
  operator_key_id = "o";
  wrapped_dek = "w";
  created_at = 1;
  shipped_at = none;
}

abbrev pending : Outbox
pending = record one { content_keys = key ∷ [] }

pending-IsSound : IsSound pending
pending-IsSound = record {
  ordered = one-IsSound.ordered;
  bounded = one-IsSound.bounded;
  stamped = one-IsSound.stamped;
  valid = one-IsSound.valid;
  unbroken = one-IsSound.unbroken;
}

sync_content_keys-IsShipSafe_example :
    let q = sync_content_keys send_keys_to 9 500 none pending new_ledger in
    IsShipSafe HoldsKey "i" q.1.content_keys q.2 × SameButMarks pending q.1
sync_content_keys-IsShipSafe_example =
    sync_content_keys-IsShipSafe send_keys_to HoldsKey send_keys-IsKeyDurable 9 500 none pending
      new_ledger (inl refl, tt)

service : IsService send_to send_keys_to Holds HoldsKey
service = record {
  events = send-IsDurable;
  keys = send_keys-IsKeyDurable;
  events_kept = send_keys-Holds;
  keys_kept = send-HoldsKey;
}

pending-cursor : delivery_cursor pending ≡ ok (pos 0)
unfolding delivery_cursor get_cursor
pending-cursor = refl

pending-IsSafePair : IsSafePair Holds HoldsKey (pending, new_ledger)
pending-IsSafePair = record {
  sound = pending-IsSound;
  cursor_safe = record {
    cursor = pos 0;
    stored = pending-cursor;
    delivered = (λ h. absurd (omega (arith, h)), tt);
  };
  ship_safe = (inl refl, tt);
}

run_sync_pass-IsSafePair_example :
    let x' =
      (run_sync_pass send_to send_keys_to str_nat int_nat storage 100 limits none
        (some config)
        (pending, new_ledger)).1 in
    IsSafePair Holds HoldsKey x' × All (IsKept Holds x') pending.events
run_sync_pass-IsSafePair_example =
    run_sync_pass-IsSafePair send_to send_keys_to Holds HoldsKey service pending.events str_nat
      int_nat storage 100 limits none (some config) (pending, new_ledger) pending-IsSafePair
      (inr (inl refl), tt)

-- A service that refuses every batch.
abbrev refusing : Batch → Ledger → Result Ack × Ledger
refusing b m = (err terminal_error, m)

abbrev refused_result : SyncPassResult
refused_result = record {
  outcome = terminal_reason;
  acked = pos 0;
  delivery_cursor = pos 0;
  pending = pos 1;
  key_outcome = none;
  keys_sent = 0;
  pruned = none;
  prune_error = false;
}

refused :
    run_sync_pass refusing send_keys_to str_nat int_nat storage 100 limits none
      (some config)
      (pending, new_ledger)
    ≡ (ok refused_result, (pending, new_ledger))
unfolding run_sync_pass push_events sync build_batches iter_events delivery_cursor get_cursor dumps
    validate str_int
refused = refl

run_sync_pass-stopped_example :
    let pushed =
      push_events refusing send_keys_to str_nat int_nat storage 100 limits none
        (pending, new_ledger) in
    (pushed.0 ≡ ok terminal_reason)
    × (IsEnded terminal_reason → ((pending, new_ledger) ≡ pushed.1) × IsIdle refused_result)
run_sync_pass-stopped_example =
    run_sync_pass-stopped refusing send_keys_to str_nat int_nat storage 100 limits none
      (some config) (pending, new_ledger) (pending, new_ledger) refused_result refused

pending-built : (build_batches limits (iter_events (pos 0) pending)).1 ≡ ok tt
unfolding build_batches iter_events dumps validate str_int
pending-built = refl

sync-delivers_example :
    ((result : SyncResult) × ((sync send_to limits none pending new_ledger).0 ≡ ok result))
    × All
        (λ (e : Event). Holds (sync send_to limits none pending new_ledger).2 e.envelope)
        pending.events
sync-delivers_example =
    sync-delivers send_to Holds send-IsDurable send_to-IsReliable limits (pos 0) pending new_ledger
      pending-IsSound (omega arith) (omega arith) pending-cursor
      ((build_batches_ok_iff limits (iter_events (pos 0) pending) (omega arith) (omega arith)).0
        pending-built)
      (λ h. absurd (omega (arith, h)), tt)

key_record-IsOf : IsOf "i" (key_record "i" key)
unfolding find key_record
key_record-IsOf = refl

build_key_batches_complete_example :
    ((build_key_batches 500 (key_record "i" key ∷ [])).1 ≡ ok tt)
    × (batch_records (build_key_batches 500 (key_record "i" key ∷ [])).0 ≡ key_record "i" key ∷ [])
build_key_batches_complete_example =
    build_key_batches_complete 500 "i" (key_record "i" key ∷ []) (omega arith) (key_record-IsOf, tt)
