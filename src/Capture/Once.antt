-- ===== src/Capture/Once.antt =====
-- A record is captured and counted once for its deduplication key.
use hermes_flight_recorder.Base.{
  Bool-cases, ℕ, ◌+◌, String, ◌≡◌, refl, ◌⊎◌, inl, inr, Bool, true, false, Option, some,
}
use hermes_flight_recorder.Value.{Fields}
use hermes_flight_recorder.Value.Json.{Bytes}
use hermes_flight_recorder.Result.{Error, Result, ok, err, Result-cases}
use hermes_flight_recorder.Outbox.Append.{Process, append, has_dedup_key}
use hermes_flight_recorder.Outbox.Append.Records.{Call, Scan, stamp, event_type_of}
use hermes_flight_recorder.Outbox.Append.Atomic.{append-Outcome}
use hermes_flight_recorder.Outbox.Append.Once.{append-hit, Outcome-has_dedup_key}
use hermes_flight_recorder.Capture.{
  Collector, horizon_drops, counted_type, count_new, append_and_count,
}

-- A known key leaves the process alone, and no row is new.
pub append-known :
    (c : Call) (r : Fields) (content : Option Bytes) (key : String) (scan : Scan) (p : Process)
    → has_dedup_key key p.outbox ≡ true
    → ((e : Error) × (append c r content (some key) scan p ≡ (err e, p)))
      ⊎ ((stored : Fields) × (append c r content (some key) scan p ≡ (ok (stored, false), p)))
unfolding append
append-known c r content key scan p known =
    elim (Result-cases (event_type_of (stamp c p.outbox r))) [
      | inl (t, q) ↦ inr (append-hit c r content key scan p known q)
      | inr (e, q) ↦ inl (e, rw (q, append) refl)
    ]

-- The same outbox and data key, and the same counts
pub record SameCapture (c c' : Collector) : Type 0 where
  pub process : c'.process ≡ c.process
  pub counts : c'.counts ≡ c.counts

module _ (calls : ℕ → Call) (scans : ℕ → Scan) (capture_horizon : Option ℕ) where
  append_and_count-known :
      (r : Fields) (content : Option Bytes) (key : String) (c : Collector)
      → has_dedup_key key c.process.outbox ≡ true
      → SameCapture c (append_and_count calls scans capture_horizon r content key c).1
  unfolding append_and_count count_new
  append_and_count-known r content key c known =
      elim (Result-cases (horizon_drops capture_horizon r)) [
        | inr (e, q) ↦ rw (q, append_and_count) record { process = refl; counts = refl }
        | inl (drops, q) ↦ elim (Bool-cases drops) [
          | inl d ↦ rw (q, d, append_and_count) record { process = refl; counts = refl }
          | inr d ↦
              elim (append-known (calls c.calls_made) r content key (scans c.calls_made) c.process
                known) [
                  | inl (e, f) ↦
                      rw (q, d, f, append_and_count) record { process = refl; counts = refl }
                  | inr (stored, f) ↦
                      rw (q, d, f, append_and_count) record { process = refl; counts = refl }
                ]
        ]
      ]

  count_new-process :
      (r : Fields) (a : Result (Fields × Bool)) (c : Collector)
      → (count_new calls scans capture_horizon r a c).1.process ≡ c.process
  unfolding count_new
  count_new-process r (err e) c = refl
  count_new-process r (ok (stored, false)) c = refl
  count_new-process r (ok (stored, true)) c = elim (Result-cases (counted_type r)) [
    | inl (t, q) ↦ rw (q, count_new) refl
    | inr (e, q) ↦ rw (q, count_new) refl
  ]

  append_and_count-stored :
      (r : Fields) (content : Option Bytes) (key : String) (c : Collector)
      → c.process.in_batch ≡ false
      → (append_and_count calls scans capture_horizon r content key c).0 ≡ ok true
      → has_dedup_key key
          (append_and_count calls scans capture_horizon r content key c).1.process.outbox
        ≡ true
  unfolding append_and_count count_new
  append_and_count-stored r content key c out h =
      elim (Result-cases (horizon_drops capture_horizon r)) [
        | inr (e, q) ↦ absurd (cc (rw (q, append_and_count) at h))
        | inl (drops, q) ↦ elim (Bool-cases drops) [
          | inl d ↦ absurd (cc (rw (q, d, append_and_count) at h))
          | inr d ↦
              let call = calls c.calls_made in
              let answer = append call r content (some key) (scans c.calls_made) c.process in
              elim (Result-cases answer.0) [
                | inr (e, f) ↦ absurd (cc (rw (q, d, f, append_and_count) at h))
                | inl (x, f) ↦
                    rw
                      (
                        q,
                        d,
                        append_and_count,
                        count_new-process r answer.0
                            (record c { process = answer.1; calls_made = c.calls_made + 1 }),
                      )
                      (Outcome-has_dedup_key call (stamp call c.process.outbox r) content key
                        c.process
                        (append-Outcome call r content (some key) (scans c.calls_made) c.process
                          out)
                        f)
              ]
        ]
      ]

  -- A capture is idempotent: once a record was captured out of a batch under a deduplication key,
  -- each later capture under the key, of any record and content, leaves the outbox and the counts
  -- as they are.
  pub append_and_count-once :
      (r : Fields) (content : Option Bytes) (key : String) (c : Collector) (r₂ : Fields)
      (content₂ : Option Bytes)
      → c.process.in_batch ≡ false
      → (append_and_count calls scans capture_horizon r content key c).0 ≡ ok true
      → let c' = (append_and_count calls scans capture_horizon r content key c).1 in
        SameCapture c' (append_and_count calls scans capture_horizon r₂ content₂ key c').1
  append_and_count-once r content key c r₂ content₂ out h =
      append_and_count-known r₂ content₂ key
        (append_and_count calls scans capture_horizon r content key c).1
        (append_and_count-stored r content key c out h)
