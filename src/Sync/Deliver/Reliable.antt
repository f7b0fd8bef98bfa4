-- ===== src/Sync/Deliver/Reliable.antt =====
-- Over a service that is up, one pass delivers everything.
use hermes_flight_recorder.Base.{
  length, All, keep, All-append, All-left, All-right, All-map, All-apply, ℤ, pos, ◌≤ℤ◌, ◌+◌, ◌≤◌,
  ◌≡◌, refl, sym, ap, ◌∙◌, subst, inl, inr, none, List, [], ◌∷◌, ◌++◌, append-nil, append_assoc,
  arith,
}
use hermes_flight_recorder.Value.{Fields}
use hermes_flight_recorder.Result.{Result, ok}
use hermes_flight_recorder.Outbox.State.{Event, Outbox, iter_events, set_cursor}
use hermes_flight_recorder.Outbox.Order.{IsStamped, is_after, iter_events-keep, split_at_cursor}
use hermes_flight_recorder.Outbox.Sound.{IsSound}
use hermes_flight_recorder.Sync.Batches.{Batch, Limits, build_batches}
use hermes_flight_recorder.Sync.Batches.Bounds.{IsBounded, build_batches-IsBounded}
use hermes_flight_recorder.Sync.Batches.Contents.{
  batch_records, IsShippable, build_batches_ok_iff, build_batches-IsPrefixOf,
}
use hermes_flight_recorder.Sync.Deliver.{
  Ack, SyncResult, Delivery, delivery_cursor, delivery_cursor_name, last_sequence, validate_ack,
  confirm, deliver, sync_from, sync, pass_batches, begin, result_of,
}
use hermes_flight_recorder.Sync.Deliver.Split.{envelopes, split_envelopes}
use hermes_flight_recorder.Sync.Deliver.Safety.{IsDurable, IsDelivered}

-- The service is up: it answers each batch of numbered records with a fitting acknowledgement.
abbrev pub IsReliable : {T : Type 0} → (Batch → T → Result Ack × T) → Type 0
IsReliable {T} send =
    (b : Batch) (t : T) (c : ℤ)
    → last_sequence b.records ≡ ok c
    → (ack : Ack) × ((send b t).0 ≡ ok ack) × (validate_ack ack b ≡ ok tt)

abbrev HasLast : Batch → Type 0
HasLast b = (c : ℤ) × (last_sequence b.records ≡ ok c)

last_sequence-stamped :
    (now : List Event)
    → 1 ≤ length (envelopes now)
    → All IsStamped now
    → (c : ℤ) × (last_sequence (envelopes now) ≡ ok c)
unfolding last_sequence
last_sequence-stamped [] h st = absurd (omega (arith, h))
last_sequence-stamped (e ∷ []) h st = (pos e.producer_sequence, rw st.0 refl)
last_sequence-stamped (e ∷ f ∷ now) h st = last_sequence-stamped (f ∷ now) (omega arith) st.1

batches-HasLast :
    (bs : List Batch) (more : List Fields) (todo : List Event)
    → batch_records bs ++ more ≡ envelopes todo
    → All IsStamped todo
    → All (λ (b : Batch). 1 ≤ length b.records) bs
    → All HasLast bs
batches-HasLast [] more todo h st n = tt
batches-HasLast (b ∷ bs) more todo h st n =
    let (now, after, q, p, m) =
      split_envelopes b.records (batch_records bs ++ more) todo
        (sym (append_assoc b.records (batch_records bs) more) ∙ h) in
    let st' = subst (All IsStamped) q st in
    let (c, e) =
      last_sequence-stamped now (subst (λ rs. 1 ≤ length rs) p n.0)
        (All-left IsStamped now after st') in
    (
      (c, ap last_sequence p ∙ e),
      batches-HasLast bs more after m (All-right IsStamped now after st') n.1,
    )

module _ {T : Type 0} (send : Batch → T → Result Ack × T) (holds : T → Fields → Type 0)
    (durable : IsDurable send holds) (reliable : IsReliable send) where
  confirm-returns :
      (b : Batch) (ack : Ack) (d : Delivery T) (c : ℤ)
      → last_sequence b.records ≡ ok c
      → validate_ack ack b ≡ ok tt
      → (d' : Delivery T) × (confirm b ack d ≡ ok d') × (d'.transport ≡ d.transport)
  unfolding confirm
  confirm-returns b ack d c q v =
      let d' : Delivery T = record d {
        outbox = set_cursor delivery_cursor_name c d.outbox;
        cursor = c;
        batches_sent = d.batches_sent + 1;
        records_sent = d.records_sent + length b.records;
      } in
      (d', rw (v, q) refl, refl)

  deliver-keeps :
      (r : Fields) (bs : List Batch) (d : Delivery T)
      → All HasLast bs
      → holds d.transport r
      → holds (deliver send bs d).1.transport r
  unfolding deliver
  deliver-keeps r [] d h k = k
  deliver-keeps r (b ∷ bs) d h k =
      let (ack, f, v) = reliable b d.transport h.0.0 h.0.1 in
      let (d', g, same) =
        confirm-returns b ack (record d { transport = (send b d.transport).1 }) h.0.0 h.0.1 v in
      rw (f, g, deliver) (deliver-keeps r bs d' h.1 (rw same (durable.keeps b d.transport r k)))

  deliver-returns :
      (bs : List Batch) (d : Delivery T)
      → All HasLast bs
      → ((deliver send bs d).0 ≡ ok tt)
        × All (holds (deliver send bs d).1.transport) (batch_records bs)
  unfolding deliver
  deliver-returns [] d h = (refl, tt)
  deliver-returns (b ∷ bs) d h =
      let (ack, f, v) = reliable b d.transport h.0.0 h.0.1 in
      let (d', g, same) =
        confirm-returns b ack (record d { transport = (send b d.transport).1 }) h.0.0 h.0.1 v in
      let (returned, held) = deliver-returns bs d' h.1 in
      let accepted : All (holds d'.transport) b.records =
        rw same (durable.accepts b d.transport ack f) in
      rw (f, g, deliver)
        (
          returned,
          All-append (holds (deliver send bs d').1.transport) b.records (batch_records bs)
              (All-map (holds d'.transport) (holds (deliver send bs d').1.transport)
                (λ r k. deliver-keeps r bs d' h.1 k) b.records accepted)
              held,
        )

  All-envelopes :
      (t : T) (es : List Event)
      → All (holds t) (envelopes es)
      → All (λ (e : Event). holds t e.envelope) es
  All-envelopes t [] h = tt
  All-envelopes t (e ∷ es) h = (h.0, All-envelopes t es h.1)

  sync_from-delivers :
      (l : Limits) (c : ℤ) (o : Outbox) (t : T)
      → IsSound o
      → 1 ≤ l.max_records
      → 1 ≤ l.max_bytes
      → IsShippable none none (iter_events c o)
      → IsDelivered holds o.events c t
      → ((sync_from send l none c o t).0
          ≡ ok (result_of o.high_water (sync_from send l none c o t).1))
        × All (λ (e : Event). holds (sync_from send l none c o t).1.transport e.envelope) o.events
  unfolding sync_from pass_batches begin
  sync_from-delivers l c o t s m n ship delivered =
      let y = build_batches l (iter_events c o) in
      let built : y.1 ≡ ok tt = (build_batches_ok_iff l (iter_events c o) m n).1 ship in
      let (rest, whole, ends) = build_batches-IsPrefixOf l (iter_events c o) in
      let todo = keep (is_after c) o.events in
      let ahead : batch_records y.0 ++ rest ≡ envelopes todo =
        whole ∙ iter_events-keep c o 0 s.ordered in
      let (done, split, low, high) = split_at_cursor c 0 o.events s.ordered in
      let stamped = All-right IsStamped done todo (subst (All IsStamped) split s.stamped) in
      let lasts = batches-HasLast y.0 rest todo ahead stamped (
        All-map (IsBounded l) (λ (b : Batch). 1 ≤ length b.records) (λ b k. k.not_empty) y.0
          (build_batches-IsBounded l (iter_events c o))) in
      let (returned, held) = deliver-returns y.0 (begin c o t) lasts in
      let d = (deliver send y.0 (begin c o t)).1 in
      let nothing_left : rest ≡ [] = elim ends [
        | inl e ↦ e
        | inr (x, e) ↦ absurd (cc (e, built))
      ] in
      let shipped : All (holds d.transport) (envelopes todo) =
        subst (All (holds d.transport))
          (sym (append-nil (batch_records y.0))
            ∙ ap (λ r. batch_records y.0 ++ r) (sym nothing_left)
            ∙ ahead)
          held in
      let before : All (λ (e : Event). holds t e.envelope) done =
        All-apply (λ (e : Event). pos e.producer_sequence ≤ℤ c) (λ (e : Event). holds t e.envelope)
          done low
          (All-left (λ (e : Event). pos e.producer_sequence ≤ℤ c → holds t e.envelope) done todo
            (subst (All _) split delivered)) in
      let after : All (λ (e : Event). holds d.transport e.envelope) done =
        All-map (λ (e : Event). holds t e.envelope) _
          (λ (e : Event) k. deliver-keeps e.envelope y.0 (begin c o t) lasts k) done before in
      (
        rw (returned, built) refl,
        subst (All (λ (e : Event). holds d.transport e.envelope)) (sym split) (
            All-append (λ (e : Event). holds d.transport e.envelope) done todo after
              (All-envelopes d.transport todo shipped)),
      )

  -- Delivery is live: over a service that is up, durable, and holds every event up to the cursor,
  -- one pass without a limit of batches, from a sound outbox whose pending events fit the protocol,
  -- returns, and after it the service holds every event of the outbox.
  pub sync-delivers :
      (l : Limits) (c : ℤ) (o : Outbox) (t : T)
      → IsSound o
      → 1 ≤ l.max_records
      → 1 ≤ l.max_bytes
      → delivery_cursor o ≡ ok c
      → IsShippable none none (iter_events c o)
      → IsDelivered holds o.events c t
      → ((result : SyncResult) × ((sync send l none o t).0 ≡ ok result))
        × All (λ (e : Event). holds (sync send l none o t).2 e.envelope) o.events
  unfolding sync
  sync-delivers l c o t s m n q ship delivered =
      let (returned, held) = sync_from-delivers l c o t s m n ship delivered in
      rw (q, sync) ((_, returned), held)
