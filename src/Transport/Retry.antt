-- ===== src/Transport/Retry.antt =====
-- Retries: how often a call is made, and what they keep of the transport's promise.
use hermes_flight_recorder.Base.{
  Bool-cases, All, ℕ, zero, suc, ◌+◌, ◌-◌, ◌≤◌, ◌≡◌, refl, sym, subst, ◌⊎◌, inl, inr, Option, arith,
}
use hermes_flight_recorder.Value.{Fields}
use hermes_flight_recorder.Result.{
  Result, ok, err, Result-cases, value_error, key_error, attribute_error, integrity_error,
  envelope_error, sync_error, outbox_error, retention_error, retryable_error, auth_error,
  terminal_error, cancelled_error,
}
use hermes_flight_recorder.Sync.Batches.{Batch}
use hermes_flight_recorder.Sync.Deliver.{Ack}
use hermes_flight_recorder.Sync.Deliver.Safety.{IsDurable}
use hermes_flight_recorder.Transport.{
  CancelEvent, is_cancelled, wait_is_cancelled, after_call, attempts, with_retry, retrying_send,
}

module _ {A T : Type 0} (P : T → Type 0) (Q : A → T → Type 0) (call : T → Result A × T) where
  -- What a call keeps, and what it answers, hold of the answer after the retries.
  abbrev Answers : Result A × T → Type 0
  Answers (ok a, t) = Q a t
  Answers (err e, t) = Unit

  after_call-Answers :
      (x y : Result A × T)
      → P x.1
      → Answers x
      → P y.1
      → Answers y
      → P (after_call x y).1 × Answers (after_call x y)
  unfolding after_call
  after_call-Answers (ok a, t) y p q p' q' = (p, q)
  after_call-Answers (err retryable_error, t) y p q p' q' = (p', q')
  after_call-Answers (err value_error, t) y p q p' q' = (p, tt)
  after_call-Answers (err key_error, t) y p q p' q' = (p, tt)
  after_call-Answers (err attribute_error, t) y p q p' q' = (p, tt)
  after_call-Answers (err integrity_error, t) y p q p' q' = (p, tt)
  after_call-Answers (err envelope_error, t) y p q p' q' = (p, tt)
  after_call-Answers (err sync_error, t) y p q p' q' = (p, tt)
  after_call-Answers (err outbox_error, t) y p q p' q' = (p, tt)
  after_call-Answers (err retention_error, t) y p q p' q' = (p, tt)
  after_call-Answers (err auth_error, t) y p q p' q' = (p, tt)
  after_call-Answers (err terminal_error, t) y p q p' q' = (p, tt)
  after_call-Answers (err cancelled_error, t) y p q p' q' = (p, tt)

  attempts-Answers :
      (cancel : Option CancelEvent) (left attempt : ℕ) (t : T)
      → ((s : T) → P s → P (call s).1 × Answers (call s))
      → P t
      → P (attempts cancel left attempt call t).1 × Answers (attempts cancel left attempt call t)
  unfolding attempts
  attempts-Answers cancel zero attempt t k p = elim (Bool-cases (is_cancelled cancel attempt)) [
    | inl c ↦ rw (c, attempts) (p, tt)
    | inr c ↦
        let (p', q) = k t p in
        rw (c, attempts) (after_call-Answers (call t) (err retryable_error, (call t).1) p' q p' tt)
  ]
  attempts-Answers cancel (suc left) attempt t k p =
      elim (Bool-cases (is_cancelled cancel attempt)) [
        | inl c ↦ rw (c, attempts) (p, tt)
        | inr c ↦
            let (p', q) = k t p in
            elim (Bool-cases (wait_is_cancelled cancel (attempt + 1))) [
              | inl w ↦
                  rw (c, w, attempts)
                    (after_call-Answers (call t) (err cancelled_error, (call t).1) p' q p' tt)
              | inr w ↦
                  let (p'', q') = attempts-Answers cancel left (attempt + 1) (call t).1 k p' in
                  rw (c, w, attempts)
                    (after_call-Answers (call t)
                      (attempts cancel left (attempt + 1) call (call t).1) p' q p'' q')
            ]
      ]

-- Retries keep the promise of the transport: what is acknowledged is durably held.
pub retrying_send-IsDurable :
    {T : Type 0} (send : Batch → T → Result Ack × T) (holds : T → Fields → Type 0)
    (cancel : Option CancelEvent) (max_attempts : ℕ)
    → IsDurable send holds
    → IsDurable (retrying_send send cancel max_attempts) holds
unfolding retrying_send with_retry
retrying_send-IsDurable {T} send holds cancel max_attempts d = record {
  accepts = λ b t ack h.
      let all =
        attempts-Answers (λ _. Unit) (λ _ s. All (holds s) b.records) (send b) cancel
          (max_attempts - 1) 0 t (λ s _. (tt, answered b s)) tt in
      acknowledged b (attempts cancel (max_attempts - 1) 0 (send b) t) ack h all.1;
  keeps = λ b t r h.
      (attempts-Answers (λ s. holds s r) (λ _ _. Unit) (send b) cancel (max_attempts - 1) 0 t
        (λ s k. (d.keeps b s r k, nothing b s r)) h).0;
}
  where
    acknowledged :
        (b : Batch) (x : Result Ack × T) (ack : Ack)
        → x.0 ≡ ok ack
        → Answers (λ _. Unit) (λ _ s. All (holds s) b.records) (send b) x
        → All (holds x.1) b.records
    acknowledged b (ok a, s) ack h q = q
    acknowledged b (err e, s) ack h q = absurd cc

    answered :
        (b : Batch) (s : T)
        → Answers (λ _. Unit) (λ _ s. All (holds s) b.records) (send b) (send b s)
    answered b s = elim (Result-cases (send b s).0) [
      | inl (ack, h) ↦
          subst
            (λ (r : Result Ack).
              Answers (λ _. Unit) (λ _ s. All (holds s) b.records) (send b) (r, (send b s).1))
            (sym h) (d.accepts b s ack h)
      | inr (e, h) ↦
          subst
            (λ (r : Result Ack).
              Answers (λ _. Unit) (λ _ s. All (holds s) b.records) (send b) (r, (send b s).1))
            (sym h) tt
    ]

    nothing :
        (b : Batch) (s : T) (r : Fields)
        → Answers (λ u. holds u r) (λ _ _. Unit) (send b) (send b s)
    nothing b s r = elim (Result-cases (send b s).0) [
      | inl (ack, h) ↦
          subst
            (λ (x : Result Ack). Answers (λ u. holds u r) (λ _ _. Unit) (send b) (x, (send b s).1))
            (sym h) tt
      | inr (e, h) ↦
          subst
            (λ (x : Result Ack). Answers (λ u. holds u r) (λ _ _. Unit) (send b) (x, (send b s).1))
            (sym h) tt
    ]

-- A call with a count of how often it was made.
abbrev pub counted : {A T : Type 0} → (T → Result A × T) → ℕ × T → Result A × (ℕ × T)
counted call (n, t) = ((call t).0, (n + 1, (call t).1))

after_call-cases :
    {A T : Type 0} (x y : Result A × T)
    → (after_call x y ≡ x) ⊎ ((after_call x y ≡ y) × (x.0 ≡ err retryable_error))
unfolding after_call
after_call-cases (ok a, t) y = inl refl
after_call-cases (err retryable_error, t) y = inr (refl, refl)
after_call-cases (err value_error, t) y = inl refl
after_call-cases (err key_error, t) y = inl refl
after_call-cases (err attribute_error, t) y = inl refl
after_call-cases (err integrity_error, t) y = inl refl
after_call-cases (err envelope_error, t) y = inl refl
after_call-cases (err sync_error, t) y = inl refl
after_call-cases (err outbox_error, t) y = inl refl
after_call-cases (err retention_error, t) y = inl refl
after_call-cases (err auth_error, t) y = inl refl
after_call-cases (err terminal_error, t) y = inl refl
after_call-cases (err cancelled_error, t) y = inl refl

attempts-count :
    {A T : Type 0} (cancel : Option CancelEvent) (left attempt : ℕ) (call : T → Result A × T)
    (n : ℕ) (t : T)
    → (attempts cancel left attempt (counted call) (n, t)).1.0 ≤ n + left + 1
unfolding attempts
attempts-count cancel zero attempt call n t = elim (Bool-cases (is_cancelled cancel attempt)) [
  | inl c ↦ rw (c, attempts) (omega arith)
  | inr c ↦
      rw (c, attempts)
        (elim (after_call-cases (counted call (n, t)) (err retryable_error, (n + 1, (call t).1))) [
          | inl q ↦ rw q (omega arith)
          | inr (q, _) ↦ rw q (omega arith)
        ])
]
attempts-count cancel (suc left) attempt call n t =
    let rest = attempts cancel left (attempt + 1) (counted call) (n + 1, (call t).1) in
    let bound = attempts-count cancel left (attempt + 1) call (n + 1) (call t).1 in
    elim (Bool-cases (is_cancelled cancel attempt)) [
      | inl c ↦ rw (c, attempts) (omega arith)
      | inr c ↦ elim (Bool-cases (wait_is_cancelled cancel (attempt + 1))) [
        | inl w ↦
            rw (c, w, attempts)
              (elim (after_call-cases (counted call (n, t))
                (err cancelled_error, (n + 1, (call t).1))) [
                  | inl q ↦ rw q (omega arith)
                  | inr (q, _) ↦ rw q (omega arith)
                ])
        | inr w ↦
            rw (c, w, attempts)
              (elim (after_call-cases (counted call (n, t)) rest) [
                | inl q ↦ rw q (omega arith)
                | inr (q, _) ↦ rw q (omega (arith, bound))
              ])
      ]
    ]

-- With max_attempts of at least 1, a call is made max_attempts times at most, whatever it answers
-- and however it is cancelled.
pub with_retry-count :
    {A T : Type 0} (cancel : Option CancelEvent) (max_attempts : ℕ) (call : T → Result A × T)
    (t : T)
    → 1 ≤ max_attempts
    → (with_retry cancel max_attempts (counted call) (0, t)).1.0 ≤ max_attempts
unfolding with_retry
with_retry-count cancel max_attempts call t h =
    let bound = attempts-count cancel (max_attempts - 1) 0 call 0 t in omega (arith, bound)
