-- ===== src/Outbox/Append/Atomic.antt =====
-- append returns or raises: in one transaction, and once for each deduplication key.
use hermes_flight_recorder.Base.{
  Option-cases, String, ◌≡◌, refl, sym, ap, ◌∙◌, subst, inl, inr, Bool, true, false, Option, none,
  some,
}
use hermes_flight_recorder.Value.{Fields}
use hermes_flight_recorder.Value.Json.{Bytes}
use hermes_flight_recorder.Result.{Error, Result, ok, err, Result-cases}
use hermes_flight_recorder.Exec.{Exec, continue, pure}
use hermes_flight_recorder.Outbox.Sound.{IsSound}
use hermes_flight_recorder.Outbox.Append.Records.{Call, Scan, stamp, event_type_of}
use hermes_flight_recorder.Outbox.Append.Sequence.{append_new-IsSound}
use hermes_flight_recorder.Outbox.Append.{
  Process, append, append_body, append_new, transaction, conclude, dedup_hit, effective_scan,
}

-- What append leaves out of a batch.
pub data Outcome (c : Call) (r : Fields) (content : Option Bytes) (dedup_key : Option String)
    (p : Process) : Result (Fields × Bool) × Process → Type 0 where
  raised :
      (e : Error) (version : Option String)
      → Outcome c r content dedup_key p (err e, record p { key_version = version })
  hit :
      (stored : Fields)
      → dedup_hit dedup_key r p.outbox ≡ some stored
      → Outcome c r content dedup_key p (ok (stored, false), p)
  appended :
      (scan : Scan) (stored : Fields) (p' : Process)
      → dedup_hit dedup_key r p.outbox ≡ none
      → append_new c r content dedup_key scan p ≡ (ok stored, p')
      → Outcome c r content dedup_key p (ok (stored, true), p')

pair : {A : Type 0} (x : Result A × Process) {r : Result A} → x.0 ≡ r → x ≡ (r, x.1)
pair (r, p) h = ap (λ x. (x, p)) h

transaction-ok :
    {A : Type 0} (body : Exec Process A) (p p' : Process) (a : A)
    → body p ≡ (ok a, p')
    → transaction body p ≡ (ok a, p')
unfolding transaction conclude
transaction-ok body p p' a h = ap (conclude p) h

transaction-err :
    {A : Type 0} (body : Exec Process A) (p p' : Process) (e : Error)
    → p.in_batch ≡ false
    → body p ≡ (err e, p')
    → transaction body p ≡ (err e, record p { key_version = none })
unfolding transaction conclude
transaction-err body p p' e out h = ap (conclude p) h ∙ rw (out, conclude) refl

module _ (c : Call) (r : Fields) (content : Option Bytes) (dedup_key : Option String) (scan : Scan)
    (p : Process) where
  body-hit :
      (stored : Fields)
      → dedup_hit dedup_key r p.outbox ≡ some stored
      → append_body c r content dedup_key scan p ≡ (ok (stored, false), p)
  unfolding append_body
  body-hit stored f = rw (f, append_body) refl

  body-ok :
      (stored : Fields) (p' : Process)
      → dedup_hit dedup_key r p.outbox ≡ none
      → append_new c r content dedup_key scan p ≡ (ok stored, p')
      → append_body c r content dedup_key scan p ≡ (ok (stored, true), p')
  unfolding append_body
  body-ok stored p' f g =
      rw (f, append_body)
        (ap (λ (x : Result Fields × Process). continue x.0 (λ s. pure (s, true)) x.1) g)

  body-err :
      (e : Error) (p' : Process)
      → dedup_hit dedup_key r p.outbox ≡ none
      → append_new c r content dedup_key scan p ≡ (err e, p')
      → append_body c r content dedup_key scan p ≡ (err e, p')
  unfolding append_body
  body-err e p' f g =
      rw (f, append_body)
        (ap (λ (x : Result Fields × Process). continue x.0 (λ s. pure (s, true)) x.1) g)

  transaction-Outcome :
      p.in_batch ≡ false
      → Outcome c r content dedup_key p (transaction (append_body c r content dedup_key scan) p)
  transaction-Outcome out = elim (Option-cases (dedup_hit dedup_key r p.outbox)) [
    | inr (stored, f) ↦
        subst (Outcome c r content dedup_key p)
          (sym (
            transaction-ok (append_body c r content dedup_key scan) p p (stored, false)
              (body-hit stored f)))
          (hit stored f)
    | inl f ↦ elim (Result-cases (append_new c r content dedup_key scan p).0) [
      | inl (stored, g) ↦
          let ran = pair (append_new c r content dedup_key scan p) g in
          subst (Outcome c r content dedup_key p)
            (sym (
              transaction-ok (append_body c r content dedup_key scan) p _ (stored, true)
                (body-ok stored _ f ran)))
            (appended scan stored _ f ran)
      | inr (e, g) ↦
          subst (Outcome c r content dedup_key p)
            (sym (
              transaction-err (append_body c r content dedup_key scan) p _ e out
                (body-err e _ f (pair (append_new c r content dedup_key scan p) g))))
            (raised e none)
    ]
  ]

pub append-Outcome :
    (c : Call) (r : Fields) (content : Option Bytes) (dedup_key : Option String) (scan : Scan)
    (p : Process)
    → p.in_batch ≡ false
    → Outcome c (stamp c p.outbox r) content dedup_key p (append c r content dedup_key scan p)
unfolding append
append-Outcome c r content dedup_key scan p out =
    elim (Result-cases (event_type_of (stamp c p.outbox r))) [
      | inr (e, f) ↦ rw (f, append) (raised e p.key_version)
      | inl (event_type, f) ↦
          rw (f, append)
            (transaction-Outcome c (stamp c p.outbox r) content dedup_key
              (effective_scan event_type scan) p out)
    ]

Outcome-IsSound :
    (c : Call) (r : Fields) (content : Option Bytes) (dedup_key : Option String) (p : Process)
    {q : Result (Fields × Bool) × Process}
    → Outcome c r content dedup_key p q
    → IsSound p.outbox
    → IsSound q.1.outbox
Outcome-IsSound c r content dedup_key p (raised e version) s = s
Outcome-IsSound c r content dedup_key p (hit stored f) s = s
Outcome-IsSound c r content dedup_key p (appended scan stored p' f g) s =
    append_new-IsSound c r content dedup_key scan p g s

-- Out of a batch, append keeps the outbox sound, whether it returns or raises: the sequences from
-- 1 to the high water are stored once each, and each stored row is a valid envelope.
pub append-IsSound :
    (c : Call) (r : Fields) (content : Option Bytes) (dedup_key : Option String) (scan : Scan)
    (p : Process)
    → p.in_batch ≡ false
    → IsSound p.outbox
    → IsSound (append c r content dedup_key scan p).1.outbox
append-IsSound c r content dedup_key scan p out s =
    Outcome-IsSound c (stamp c p.outbox r) content dedup_key p
      (append-Outcome c r content dedup_key scan p out) s
