-- ===== src/Transport.antt =====
-- The HTTPS transport, its retries and the push of a pass (collector/transport.py). The network is
-- the parameter `urlopen`, from the state of the other side to its reply and next state; json.loads
-- of a payload and the test for a Cloudflare Access login page are in the reply. An exception's
-- message is not modelled, nor the length of a delay: a sleep changes no state.
pub mod Retry
pub mod Push
use hermes_flight_recorder.Base.{
  ltb, leb, eqb, if◌then◌else◌, ltb→lt, lt→ltb, le→ltb, leb→le, Bool-cases, Option-cases, length,
  take, drop, concat, All, any, keep, length-append, take-append-drop, length-take-le, All-append,
  All-left, All-right, All-map, All-apply, keep-true, keep-false, cons-injective, ℤ, pos, negsuc,
  pos_part, neg_part, ◌+ℤ◌, ◌-ℤ◌, ◌≤ℤ◌, ◌<ℤ◌, le_int, lt_int, eq_int, max_int, eq_of_parts,
  <ℤ_trans, str_nat, int_nat, int_nat-str_nat, str_int, int_text, int_text-str_int, ℕ, zero, suc,
  ◌+◌, ◌-◌, ◌*◌, ◌/◌, ◌%◌, ◌^◌, ◌≤◌, ◌<◌, compare, Ordering, min, max, Char, code, String, ◌≡◌,
  refl, sym, ap, ◌∙◌, subst, fun_ext, ◌≢◌, ◌↔◌, ◌⊎◌, inl, inr, Bool, true, false, ◌&&◌, ◌||◌, not,
  Option, none, some, List, [], ◌∷◌, ◌++◌, map, append-nil, append_assoc, arith, ◌==◌, eq_iff,
  eq_refl,
}
use hermes_flight_recorder.Value.{
  Value, null, boolean, integer, real, text, array, object, Fields, find, as_object,
}
use hermes_flight_recorder.Value.Json.{Bytes}
use hermes_flight_recorder.Result.{
  Error, Result, ok, err, ◌>>=◌, ◌>>◌, require, or_raise, retryable_error, auth_error,
  terminal_error, cancelled_error,
}
use hermes_flight_recorder.Outbox.State.{Outbox}
use hermes_flight_recorder.Sync.Batches.{Batch, Limits}
use hermes_flight_recorder.Sync.Deliver.{Ack, SyncResult, sync}
use hermes_flight_recorder.Sync.Keys.{KeyAck, KeySyncResult, sync_content_keys}

-- What urlopen answers: an HTTPError, no answer, or a response. `is_login` is
-- _looks_like_cloudflare_access_login of the body, `parsed` is json.loads of it.
pub data Reply : Type 0 where
  http_error : (status : ℕ) (is_login : Bool) → Reply
  no_answer : Reply
  response : (status : ℕ) (is_login : Bool) (parsed : Option Value) → Reply

-- _classify_status(status, detail)
unfoldable pub classify_status : ℕ → Bool → Error
classify_status status is_login =
    if is_login
    then auth_error
    else if eqb status 401 || eqb status 403
    then auth_error
    else if eqb status 400
    then terminal_error
    else if eqb status 429 || (leb 500 status && leb status 599)
    then retryable_error
    else terminal_error

-- HttpsTransport._post, up to the parsed payload, of a reply whose body could be read
unfoldable pub post : Reply → Result (Option Value)
unfolding classify_status
post (http_error status is_login) = err (classify_status status is_login)
post no_answer = err retryable_error
post (response status is_login parsed) =
    if eqb status 202
    then (if is_login then err auth_error else ok parsed)
    else err (classify_status status is_login)

-- int(value) of a JSON value
unfoldable pub to_int : Value → Option ℤ
to_int null = none
to_int (boolean b) = some (pos (if b then 1 else 0))
to_int (integer i) = some i
to_int (real n) = some (pos (n / 1000000))
to_int (text s) = int_text s
to_int (array items) = none
to_int (object r) = none

int_field : String → Fields → Result ℤ
int_field name r = do v ← or_raise terminal_error (find name r); or_raise terminal_error (to_int v)

-- _parse_ack(payload)
unfoldable pub parse_ack : Option Value → Result Ack
unfolding int_field to_int find
parse_ack parsed = do
  data_fields ← or_raise terminal_error (as_object parsed)
  accepted ← int_field "accepted" data_fields
  duplicates ← int_field "duplicates" data_fields
  high_water ← int_field "high_water" data_fields
  ok (record { accepted = accepted; duplicates = duplicates; high_water = high_water })

-- _parse_key_ack(payload)
unfoldable pub parse_key_ack : Option Value → Result KeyAck
unfolding int_field to_int find
parse_key_ack parsed = do
  data_fields ← or_raise terminal_error (as_object parsed)
  accepted ← int_field "accepted" data_fields
  duplicates ← int_field "duplicates" data_fields
  ok (record { accepted = accepted; duplicates = duplicates })

module _ {N : Type 0} (urlopen : Bytes → N → Reply × N) where
  -- HttpsTransport.send(batch)
  unfoldable pub https_send : Batch → N → Result Ack × N
  unfolding post parse_ack
  https_send batch n =
      let (reply, n') = urlopen batch.wire_bytes n in (post reply >>= parse_ack, n')

  -- HttpsTransport.send_keys(batch), where `urlopen` is that of `keys_url`
  unfoldable pub https_send_keys : Batch → N → Result KeyAck × N
  unfolding post parse_key_ack
  https_send_keys batch n =
      let (reply, n') = urlopen batch.wire_bytes n in (post reply >>= parse_key_ack, n')

-- cancel_event, as what is_set() and wait(delay) answer in each attempt
pub record CancelEvent : Type 0 where
  pub is_set : ℕ → Bool
  pub waits : ℕ → Bool

abbrev pub is_cancelled : Option CancelEvent → ℕ → Bool
is_cancelled none attempt = false
is_cancelled (some event) attempt = event.is_set attempt

abbrev pub wait_is_cancelled : Option CancelEvent → ℕ → Bool
wait_is_cancelled none attempt = false
wait_is_cancelled (some event) attempt = event.waits attempt

module _ {A T : Type 0} where
  -- The answer of one call, and what follows a retryable failure
  pub after_call : Result A × T → Result A × T → Result A × T
  after_call (ok a, t) next = (ok a, t)
  after_call (err retryable_error, t) next = next
  after_call (err e, t) next = (err e, t)

  -- The loop with `left` further attempts after this one; `attempt` calls have failed.
  pub attempts : Option CancelEvent → ℕ → ℕ → (T → Result A × T) → T → Result A × T
  attempts cancel zero attempt call t =
      if is_cancelled cancel attempt
      then (err cancelled_error, t)
      else let answer = call t in after_call answer (err retryable_error, answer.1)
  attempts cancel (suc left) attempt call t =
      let answer = call t in
      let rest = attempts cancel left (attempt + 1) call answer.1 in
      if is_cancelled cancel attempt
      then (err cancelled_error, t)
      else after_call answer
          (if wait_is_cancelled cancel (attempt + 1) then (err cancelled_error, answer.1) else rest)

  -- RetryingTransport._with_retry(call), with the max_attempts that __post_init__ lets through
  unfoldable pub with_retry : Option CancelEvent → ℕ → (T → Result A × T) → T → Result A × T
  unfolding attempts after_call
  with_retry cancel max_attempts call t = attempts cancel (max_attempts - 1) 0 call t

-- PushOutcome
pub data PushOutcome (A : Type 0) : Type 0 where
  delivered : A → PushOutcome A
  offline auth cancelled : PushOutcome A

-- The except clauses of push and push_content_keys
unfoldable pub outcome_of : {A : Type 0} → Result A → Result (PushOutcome A)
outcome_of (ok a) = ok (delivered a)
outcome_of (err retryable_error) = ok offline
outcome_of (err auth_error) = ok auth
outcome_of (err cancelled_error) = ok cancelled
outcome_of (err e) = err e

module _ {T : Type 0} (send : Batch → T → Result Ack × T) where
  -- RetryingTransport.send(batch)
  unfoldable pub retrying_send : Option CancelEvent → ℕ → Batch → T → Result Ack × T
  unfolding with_retry
  retrying_send cancel max_attempts batch t = with_retry cancel max_attempts (send batch) t

  -- push(outbox, transport, **sync_kwargs)
  unfoldable pub push :
      Limits → Option ℕ → Outbox → T → Result (PushOutcome SyncResult) × Outbox × T
  unfolding outcome_of
  push l max_batches o t = let (r, o', t') = sync send l max_batches o t in (outcome_of r, o', t')

module _ {T : Type 0} (send_keys : Batch → T → Result KeyAck × T) where
  -- RetryingTransport.send_keys(batch)
  unfoldable pub retrying_send_keys : Option CancelEvent → ℕ → Batch → T → Result KeyAck × T
  unfolding with_retry
  retrying_send_keys cancel max_attempts batch t =
      with_retry cancel max_attempts (send_keys batch) t

  -- push_content_keys(outbox, transport, **sync_kwargs), with `now` the clock
  unfoldable pub push_content_keys :
      ℕ → ℕ → Option ℕ → Outbox → T → Result (PushOutcome KeySyncResult) × Outbox × T
  unfolding outcome_of
  push_content_keys now max_records max_batches o t =
      let (r, o', t') = sync_content_keys send_keys now max_records max_batches o t in
      (outcome_of r, o', t')
