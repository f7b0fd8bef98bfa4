-- ===== src/Sync/Deliver/Safety.antt =====
-- The delivery cursor never passes an event that the transport has not accepted.
use hermes_flight_recorder.Base.{
  Bool-cases, take, All, keep, All-append, All-left, All-right, All-map, All-apply, ℤ, pos, ◌≤ℤ◌,
  ◌<ℤ◌, ℕ, zero, suc, ◌≡◌, refl, sym, ap, ◌∙◌, subst, inl, inr, true, false, Option, none, some,
  List, [], ◌∷◌, ◌++◌, append_assoc, arith,
}
use hermes_flight_recorder.Value.{Fields}
use hermes_flight_recorder.Result.{Result, ok, err, ◌>>=◌, >>=-eq-ok, Result-cases, value_error}
use hermes_flight_recorder.Outbox.State.{Event, Outbox, set_cursor, iter_events}
use hermes_flight_recorder.Outbox.Order.{
  Above, IsStamped, is_after, iter_events-keep, split_at_cursor,
}
use hermes_flight_recorder.Sync.Batches.{Batch, Limits, build_batches}
use hermes_flight_recorder.Sync.Batches.Contents.{batch_records, build_batches-IsPrefixOf}
use hermes_flight_recorder.Sync.Deliver.{
  delivery_cursor_name, Ack, Delivery, delivery_cursor, last_sequence, validate_ack, confirm,
  deliver, sync_from, sync, pass_batches, begin, at_least_one,
}
use hermes_flight_recorder.Sync.Deliver.Split.{
  envelopes, split_envelopes, last_sequence-split, Above-right, events-set_cursor,
  delivery_cursor-set_cursor,
}

-- What a transport promises: it answers with an acknowledgement only when it durably holds every
-- record of the batch, and it never loses a record.
pub record IsDurable {T : Type 0} (send : Batch → T → Result Ack × T) (holds : T → Fields → Type 0)
    : Type 0 where
  pub accepts :
      (b : Batch) (t : T) (ack : Ack) → (send b t).0 ≡ ok ack → All (holds (send b t).1) b.records
  pub keeps : (b : Batch) (t : T) (r : Fields) → holds t r → holds (send b t).1 r

-- Every event up to the cursor is held.
abbrev pub IsDelivered : {T : Type 0} → (T → Fields → Type 0) → List Event → ℤ → T → Type 0
IsDelivered holds es c t = All (λ e. pos e.producer_sequence ≤ℤ c → holds t e.envelope) es

-- The property at an outbox and a transport.
pub record IsCursorSafe {T : Type 0} (holds : T → Fields → Type 0) (o : Outbox) (t : T)
    : Type 0 where
  pub cursor : ℤ
  pub stored : delivery_cursor o ≡ ok cursor
  pub delivered : IsDelivered holds o.events cursor t

-- What a confirmed batch changes.
confirm-eq-ok :
    {T : Type 0} (batch : Batch) (ack : Ack) (dl : Delivery T) {dl' : Delivery T}
    → confirm batch ack dl ≡ ok dl'
    → (c : ℤ) × (last_sequence batch.records ≡ ok c)
      × (dl'.cursor ≡ c)
      × (dl'.transport ≡ dl.transport)
      × (dl'.outbox ≡ set_cursor delivery_cursor_name c dl.outbox)
unfolding confirm
confirm-eq-ok batch ack dl h =
    let (u, _, h₁) = >>=-eq-ok (validate_ack ack batch) _ h in
    let (c, e, h₂) = >>=-eq-ok (last_sequence batch.records) _ h₁ in (c, e, cc, cc, cc)

module _ {T : Type 0} (send : Batch → T → Result Ack × T) (holds : T → Fields → Type 0)
    (d : IsDurable send holds) where
  held-after :
      (b : Batch) (t : T) (es : List Event)
      → All (λ e. holds t e.envelope) es
      → All (λ e. holds (send b t).1 e.envelope) es
  held-after b t es h = All-map _ _ (λ e k. d.keeps b t e.envelope k) es h

  All-envelopes :
      (t : T) (es : List Event) → All (holds t) (envelopes es) → All (λ e. holds t e.envelope) es
  All-envelopes t [] h = tt
  All-envelopes t (e ∷ es) h = (h.0, All-envelopes t es h.1)

  -- Between two rounds of the loop.
  record IsSafe (es : List Event) (more : List Fields) (dl : Delivery T) : Type 0 where
    done : List Event
    todo : List Event
    whole : es ≡ done ++ todo
    held : All (λ e. holds dl.transport e.envelope) done
    later : All (λ e. dl.cursor <ℤ pos e.producer_sequence) todo
    rest : List Fields
    ahead : more ++ rest ≡ envelopes todo
    events : dl.outbox.events ≡ es
    stored : delivery_cursor dl.outbox ≡ ok dl.cursor

  step-IsSafe :
      (es : List Event) (n : ℕ) (b : Batch) (more : List Fields) (dl : Delivery T) (ack : Ack)
      (dl' : Delivery T)
      → Above n es
      → All IsStamped es
      → (send b dl.transport).0 ≡ ok ack
      → confirm b ack (record dl { transport = (send b dl.transport).1 }) ≡ ok dl'
      → IsSafe es (b.records ++ more) dl
      → IsSafe es more dl'
  step-IsSafe es n b more dl ack dl' a st answer ok_d s =
      let (c, last, cursor, transport, outbox) =
        confirm-eq-ok b ack (record dl { transport = (send b dl.transport).1 }) ok_d in
      let (now, after, q, p, m) =
        split_envelopes b.records (more ++ s.rest) s.todo
          (sym (append_assoc b.records more s.rest) ∙ s.ahead) in
      let held_now = d.accepts b dl.transport ack answer in
      let (k, above) = Above-right n s.done s.todo (subst (Above n) s.whole a) in
      record {
        done = s.done ++ now;
        todo = after;
        whole = s.whole ∙ ap (λ r. s.done ++ r) q ∙ sym (append_assoc s.done now after);
        held = rw transport (
            All-append (λ e. holds (send b dl.transport).1 e.envelope) s.done now
              (held-after b dl.transport s.done s.held)
              (All-envelopes (send b dl.transport).1 now
                (subst (All (holds (send b dl.transport).1)) p held_now)));
        later = rw cursor (
            last_sequence-split k now after c
              (All-left IsStamped now after (
                subst (All IsStamped) q
                  (All-right IsStamped s.done s.todo (subst (All IsStamped) s.whole st))))
              (subst (Above k) q above) (ap last_sequence (sym p) ∙ last));
        rest = s.rest;
        ahead = m;
        events =
            ap (λ (o : Outbox). o.events) outbox
            ∙ events-set_cursor delivery_cursor_name c dl.outbox
            ∙ s.events;
        stored =
            ap delivery_cursor outbox ∙ delivery_cursor-set_cursor c dl.outbox ∙ ap ok (sym cursor);
      }

  stay-IsSafe :
      (es : List Event) (b : Batch) (more : List Fields) (dl : Delivery T)
      → IsSafe es more dl
      → IsSafe es more (record dl { transport = (send b dl.transport).1 })
  stay-IsSafe es b more dl s = record {
    done = s.done;
    todo = s.todo;
    whole = s.whole;
    held = held-after b dl.transport s.done s.held;
    later = s.later;
    rest = s.rest;
    ahead = s.ahead;
    events = s.events;
    stored = s.stored;
  }

  deliver-IsSafe :
      (es : List Event) (n : ℕ)
      → Above n es
      → All IsStamped es
      → (batches : List Batch) (dl : Delivery T) → IsSafe es (batch_records batches) dl
      → (more : List Fields) × IsSafe es more (deliver send batches dl).1
  unfolding deliver
  deliver-IsSafe es n a st [] dl s = ([], s)
  deliver-IsSafe es n a st (b ∷ rest) dl s =
      elim (Result-cases (
        (send b dl.transport).0 >>= λ ack.
        confirm b ack (record dl { transport = (send b dl.transport).1 }))) [
          | inr (e, q) ↦
              rw (q, deliver)
                (batch_records (b ∷ rest), stay-IsSafe es b (batch_records (b ∷ rest)) dl s)
          | inl (dl', q) ↦
              let (ack, answer, confirmed) = >>=-eq-ok (send b dl.transport).0 _ q in
              rw (q, deliver)
                (deliver-IsSafe es n a st rest dl'
                  (step-IsSafe es n b (batch_records rest) dl ack dl' a st answer confirmed s))
        ]

  IsSafe-IsDelivered :
      (es : List Event) (more : List Fields) (dl : Delivery T)
      → IsSafe es more dl
      → IsDelivered holds es dl.cursor dl.transport
  IsSafe-IsDelivered es more dl s =
      let P : Event → Type 0 =
        λ e. pos e.producer_sequence ≤ℤ dl.cursor → holds dl.transport e.envelope in
      rw s.whole (
        All-append P s.done s.todo (All-map _ P (λ e h _. h) s.done s.held)
          (All-map _ P (λ e h k. absurd (omega arith)) s.todo s.later))

  batch_records-take :
      (k : ℕ) (bs : List Batch)
      → (more : List Fields) × (batch_records (take k bs) ++ more ≡ batch_records bs)
  batch_records-take zero bs = (batch_records bs, refl)
  batch_records-take (suc k) [] = ([], refl)
  batch_records-take (suc k) (b ∷ bs) =
      let (more, e) = batch_records-take k bs in
      (more, append_assoc b.records (batch_records (take k bs)) more ∙ ap (λ s. b.records ++ s) e)

  -- What a pass sends is a prefix of the events above the cursor.
  pass_batches-prefix :
      (l : Limits) (max_batches : Option ℕ) (c : ℤ) (o : Outbox)
      → (rest : List Fields) × (batch_records (pass_batches l max_batches c o).0 ++ rest
          ≡ iter_events c o)
  unfolding pass_batches
  pass_batches-prefix l none c o =
      let (rest, e, _) = build_batches-IsPrefixOf l (iter_events c o) in (rest, e)
  pass_batches-prefix l (some k) c o =
      let bs = (build_batches l (iter_events c o)).0 in
      let (rest, e, _) = build_batches-IsPrefixOf l (iter_events c o) in
      let (more, f) = batch_records-take k bs in
      (
        more ++ rest,
        sym (append_assoc (batch_records (take k bs)) more rest) ∙ ap (λ s. s ++ rest) f ∙ e,
      )

  begin-IsSafe :
      (l : Limits) (max_batches : Option ℕ) (c : ℤ) (n : ℕ) (o : Outbox) (t : T)
      → Above n o.events
      → delivery_cursor o ≡ ok c
      → IsDelivered holds o.events c t
      → IsSafe o.events (batch_records (pass_batches l max_batches c o).0) (begin c o t)
  unfolding begin
  begin-IsSafe l max_batches c n o t a q h =
      let (done, whole, low, high) = split_at_cursor c n o.events a in
      let (rest, ahead) = pass_batches-prefix l max_batches c o in
      record {
        done = done;
        todo = keep (is_after c) o.events;
        whole = whole;
        held =
            All-apply _ _ done low
              (All-left _ done (keep (is_after c) o.events) (subst (All _) whole h));
        later = high;
        rest = rest;
        ahead = ahead ∙ iter_events-keep c o n a;
        events = refl;
        stored = q;
      }

  sync_from-IsCursorSafe :
      (l : Limits) (max_batches : Option ℕ) (c : ℤ) (n : ℕ) (o : Outbox) (t : T)
      → Above n o.events
      → All IsStamped o.events
      → delivery_cursor o ≡ ok c
      → IsDelivered holds o.events c t
      → IsCursorSafe holds
          (sync_from send l max_batches c o t).1.outbox
          (sync_from send l max_batches c o t).1.transport
        × ((sync_from send l max_batches c o t).1.outbox.events ≡ o.events)
  unfolding sync_from
  sync_from-IsCursorSafe l max_batches c n o t a st q h =
      let (more, s) =
        deliver-IsSafe o.events n a st (pass_batches l max_batches c o).0 (begin c o t)
          (begin-IsSafe l max_batches c n o t a q h) in
      let dl = (deliver send (pass_batches l max_batches c o).0 (begin c o t)).1 in
      (
        record {
          cursor = dl.cursor;
          stored = s.stored;
          delivered = rw s.events (IsSafe-IsDelivered o.events more dl s);
        },
        s.events,
      )

  sync-stopped :
      (l : Limits) (max_batches : Option ℕ) (o : Outbox) (t : T)
      → at_least_one max_batches ≡ false
      → sync send l max_batches o t ≡ (err value_error, o, t)
  unfolding sync
  sync-stopped l max_batches o t e = rw (e, sync)

  sync-run :
      (l : Limits) (max_batches : Option ℕ) (c : ℤ) (o : Outbox) (t : T)
      → at_least_one max_batches ≡ true
      → delivery_cursor o ≡ ok c
      → sync send l max_batches o t
        ≡ (let (r, dl) = sync_from send l max_batches c o t in (r, dl.outbox, dl.transport))
  unfolding sync
  sync-run l max_batches c o t e q = rw (e, sync) (rw q)

  -- Over a transport that acknowledges only what it durably holds, a pass keeps the cursor safe,
  -- whatever the transport answers, and however the pass ends: on ordered and stamped events, if every
  -- event up to the delivery cursor is held, so it is after the pass, and no event is changed.
  pub sync-IsCursorSafe :
      (l : Limits) (max_batches : Option ℕ) (n : ℕ) (o : Outbox) (t : T)
      → Above n o.events
      → All IsStamped o.events
      → IsCursorSafe holds o t
      → IsCursorSafe holds (sync send l max_batches o t).1 (sync send l max_batches o t).2
        × ((sync send l max_batches o t).1.events ≡ o.events)
  sync-IsCursorSafe l max_batches n o t a st s = elim (Bool-cases (at_least_one max_batches)) [
    | inr e ↦ rw (sync-stopped l max_batches o t e) (s, refl)
    | inl e ↦
        rw (sync-run l max_batches s.cursor o t e s.stored)
          (sync_from-IsCursorSafe l max_batches s.cursor n o t a st s.stored s.delivered)
  ]
