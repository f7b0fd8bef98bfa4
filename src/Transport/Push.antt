-- ===== src/Transport/Push.antt =====
-- A push over the retrying transport.
use hermes_flight_recorder.Base.{All, ℕ, ◌≡◌, Option}
use hermes_flight_recorder.Value.{Fields}
use hermes_flight_recorder.Result.{Result}
use hermes_flight_recorder.Outbox.State.{Outbox}
use hermes_flight_recorder.Outbox.Order.{Above, IsStamped}
use hermes_flight_recorder.Sync.Batches.{Batch, Limits}
use hermes_flight_recorder.Sync.Deliver.{Ack}
use hermes_flight_recorder.Sync.Deliver.Safety.{IsDurable, IsCursorSafe, sync-IsCursorSafe}
use hermes_flight_recorder.Transport.{CancelEvent, push, retrying_send}
use hermes_flight_recorder.Transport.Retry.{retrying_send-IsDurable}

-- A push over retries of a durable transport, however often it sends a batch, however it is
-- cancelled and whichever outcome it reports or raises: on ordered and stamped events whose part
-- up to the delivery cursor is held, it keeps the cursor safe and every event.
pub push-IsCursorSafe :
    {T : Type 0} (send : Batch → T → Result Ack × T) (holds : T → Fields → Type 0)
    (d : IsDurable send holds) (cancel : Option CancelEvent) (max_attempts : ℕ) (l : Limits)
    (max_batches : Option ℕ) (o : Outbox) (t : T)
    → Above 0 o.events
    → All IsStamped o.events
    → IsCursorSafe holds o t
    → let q = push (retrying_send send cancel max_attempts) l max_batches o t in
      IsCursorSafe holds q.1 q.2 × (q.1.events ≡ o.events)
unfolding push
push-IsCursorSafe send holds d cancel max_attempts l max_batches o t a st s =
    sync-IsCursorSafe (retrying_send send cancel max_attempts) holds
      (retrying_send-IsDurable send holds cancel max_attempts d) l max_batches 0 o t a st s
