-- ===== src/Outbox/Append/Once.antt =====
-- A deduplication key that was appended once is not appended again.
use hermes_flight_recorder.Base.{
  eqb, Bool-cases, Option-cases, length, pos, ℕ, ◌+◌, String, ◌≡◌, refl, sym, ap, ◌∙◌, subst, inl,
  inr, Bool, true, false, Option, none, some, List, [], ◌∷◌, ◌++◌, arith, eq_refl,
}
use hermes_flight_recorder.Value.{Fields, put, update, integer}
use hermes_flight_recorder.Value.Json.{Bytes}
use hermes_flight_recorder.Result.{Result, ok}
use hermes_flight_recorder.Exec.{lift, >>=-eq-ok}
use hermes_flight_recorder.Outbox.State.{Event, Outbox}
use hermes_flight_recorder.Outbox.Insert.{same_key}
use hermes_flight_recorder.Outbox.Sound.{insert_event-row}
use hermes_flight_recorder.Outbox.Append.Records.{
  Call, Scan, stamp, event_type_of, finding_record, sealed_fields,
}
use hermes_flight_recorder.Outbox.Append.Sequence.{
  lift-eq-ok, current_key-SameTables, check_record-valid, insert-eq-ok, SameTables,
}
use hermes_flight_recorder.Outbox.Append.{
  Process, append, append_body, append_new, transaction, conclude, dedup_hit, pruned_identity,
  plan_rows, check_record, insert, insert_chunks, insert_finding, current_key, find_event,
  find_tombstone, has_dedup_key, set_high_water,
}
use hermes_flight_recorder.Outbox.Append.Atomic.{append-Outcome, Outcome, raised, hit, appended}

-- The key is in the table of events.
abbrev Stores : String → Process → Type 0
Stores key p = (s : Event) × (find_event key p.outbox.events ≡ some s)

find_event-left :
    (key : String) (es fs : List Event) (s : Event)
    → find_event key es ≡ some s
    → find_event key (es ++ fs) ≡ some s
unfolding find_event
find_event-left key [] fs s h = absurd cc
find_event-left key (e ∷ es) fs s h = ground (arith, find_event-left key es fs s)

find_event-last :
    (key : String) (es : List Event) (e : Event)
    → e.dedup_key ≡ some key
    → (s : Event) × (find_event key (es ++ e ∷ []) ≡ some s)
unfolding find_event
find_event-last key [] e h = (e, rw (h, eq_refl key) refl)
find_event-last key (f ∷ es) e h = elim (Bool-cases (same_key f.dedup_key (some key))) [
  | inl t ↦ (f, rw t refl)
  | inr t ↦ let (s, q) = find_event-last key es e h in (s, rw t q)
]

insert-Stores :
    (key : String) (r : Fields) (dedup_key : Option String) (p : Process) {u : Unit {0}}
    {p' : Process}
    → insert r dedup_key p ≡ (ok u, p')
    → Stores key p
    → Stores key p'
insert-Stores key r dedup_key p h (s, q) =
    let (o, f, same) = insert-eq-ok r dedup_key p h in
    let (e, row) = insert_event-row r dedup_key p.outbox f in
    (s, rw (same, row.events) (find_event-left key p.outbox.events (e ∷ []) s q))

insert-Stores_own :
    (key : String) (r : Fields) (p : Process) {u : Unit {0}} {p' : Process}
    → insert r (some key) p ≡ (ok u, p')
    → Stores key p'
insert-Stores_own key r p h =
    let (o, f, same) = insert-eq-ok r (some key) p h in
    let (e, row) = insert_event-row r (some key) p.outbox f in
    let (s, q) = find_event-last key p.outbox.events e row.dedup in (s, rw (same, row.events) q)

insert_finding-Stores :
    (key : String) (c : Call) (scan : Scan) (parent : Fields) (k : ℕ) (p : Process) {final : ℕ}
    {p' : Process}
    → insert_finding c scan parent k p ≡ (ok final, p')
    → Stores key p
    → Stores key p'
unfolding insert_finding
insert_finding-Stores key c scan parent k p {final} {p'} h s =
    elim (Bool-cases (eqb scan.match_count 0)) [
      | inl f ↦
          let q : Path (Result ℕ × Process) (ok k, p) (ok final, p') =
            rw (f, insert_finding) at h in
          subst (Stores key) (ap (λ (x : Result ℕ × Process). x.1) q) s
      | inr f ↦
          let h₀ = rw (f, insert_finding) at h in
          let (finding, p₁, e₁, h₁) = >>=-eq-ok (lift (finding_record c scan parent)) _ p h₀ in
          let numbered = put "producer_sequence" (integer (pos (k + 1))) finding in
          let (version, p₂, e₂, h₂) = >>=-eq-ok (current_key c) _ p₁ h₁ in
          let sealed =
            update numbered (sealed_fields version (c.seal_finding version scan.content)) in
          let (u₁, p₃, e₃, h₃) = >>=-eq-ok (check_record sealed) _ p₂ h₂ in
          let (u₂, p₄, e₄, h₄) = >>=-eq-ok (insert sealed none) _ p₃ h₃ in
          let (_, q₁) = lift-eq-ok (finding_record c scan parent) p e₁ in
          let (_, q₃) = check_record-valid sealed p₂ e₃ in
          let s₂ = subst (Stores key) q₃ (
            SameTables-Stores key p₁ p₂ (current_key-SameTables c p₁ e₂)
              (subst (Stores key) q₁ s)) in
          subst (Stores key) (ap (λ (x : Result ℕ × Process). x.1) h₄)
            (insert-Stores key sealed none p₃ e₄ s₂)
    ]
  where
    SameTables-Stores :
        (key : String) (p p' : Process) → SameTables p p' → Stores key p → Stores key p'
    SameTables-Stores key p p' same (s, q) = (s, rw (same.0) q)

append_new-Stores :
    (c : Call) (r : Fields) (content : Option Bytes) (key : String) (scan : Scan) (p : Process)
    {stored : Fields} {p' : Process}
    → append_new c r content (some key) scan p ≡ (ok stored, p')
    → Stores key p'
unfolding append_new set_high_water
append_new-Stores c r content key scan p h =
    let (rows, p₁, e₁, h₁) = >>=-eq-ok (plan_rows c r content) _ p h in
    let (u₁, p₂, e₂, h₂) = >>=-eq-ok (check_record rows.parent) _ p₁ h₁ in
    let (u₂, p₃, e₃, h₃) = >>=-eq-ok (insert_chunks rows.chunks) _ p₂ h₂ in
    let (u₃, p₄, e₄, h₄) = >>=-eq-ok (insert rows.parent (some key)) _ p₃ h₃ in
    let last = p.outbox.high_water + length rows.chunks + 1 in
    let (final, p₅, e₅, h₅) = >>=-eq-ok (insert_finding c scan rows.parent last) _ p₄ h₄ in
    let (s, q) =
      insert_finding-Stores key c scan rows.parent last p₄ e₅
        (insert-Stores_own key rows.parent p₃ e₄) in
    (s, ap (λ (x : Result Fields × Process). find_event key x.1.outbox.events) (sym h₅) ∙ q)

hit-has_dedup_key :
    (key : String) (r : Fields) (o : Outbox) (stored : Fields)
    → dedup_hit (some key) r o ≡ some stored
    → has_dedup_key key o ≡ true
unfolding has_dedup_key dedup_hit
hit-has_dedup_key key r o stored h = elim (Option-cases (find_event key o.events)) [
  | inr (e, f) ↦ rw (f, has_dedup_key) refl
  | inl f ↦ elim (Option-cases (find_tombstone key o.tombstones)) [
    | inr (t, g) ↦ rw (f, g, has_dedup_key) refl
    | inl g ↦ absurd (cc (rw (f, g, dedup_hit) at h))
  ]
]

has_dedup_key-hit :
    (key : String) (r : Fields) (o : Outbox)
    → has_dedup_key key o ≡ true
    → (stored : Fields) × (dedup_hit (some key) r o ≡ some stored)
unfolding has_dedup_key dedup_hit
has_dedup_key-hit key r o h = elim (Option-cases (find_event key o.events)) [
  | inr (e, f) ↦ (e.envelope, rw (f, dedup_hit) refl)
  | inl f ↦ elim (Option-cases (find_tombstone key o.tombstones)) [
    | inr (t, g) ↦ (pruned_identity r t, rw (f, g, dedup_hit) refl)
    | inl g ↦ absurd (cc (rw (f, g, has_dedup_key) at h))
  ]
]

Stores-has_dedup_key :
    (key : String) (p : Process) → Stores key p → has_dedup_key key p.outbox ≡ true
unfolding has_dedup_key
Stores-has_dedup_key key p (s, q) = rw (q, has_dedup_key) refl

-- A has_dedup_key answer of true is final for append: it stores nothing and returns a record.
pub append-hit :
    (c : Call) (r : Fields) (content : Option Bytes) (key : String) (scan : Scan) (p : Process)
    {event_type : Option String}
    → has_dedup_key key p.outbox ≡ true
    → event_type_of (stamp c p.outbox r) ≡ ok event_type
    → (stored : Fields) × (append c r content (some key) scan p ≡ (ok (stored, false), p))
unfolding append transaction append_body conclude
append-hit c r content key scan p has g =
    let (stored, f) = has_dedup_key-hit key (stamp c p.outbox r) p.outbox has in
    (stored, rw (g, f, append, append_body, transaction) refl)

pub Outcome-has_dedup_key :
    (c : Call) (r : Fields) (content : Option Bytes) (key : String) (p : Process)
    {q : Result (Fields × Bool) × Process}
    → Outcome c r content (some key) p q
    → {x : Fields × Bool} → q.0 ≡ ok x
    → has_dedup_key key q.1.outbox ≡ true
Outcome-has_dedup_key c r content key p (raised e version) h = absurd cc
Outcome-has_dedup_key c r content key p (hit stored f) h = hit-has_dedup_key key r p.outbox stored f
Outcome-has_dedup_key c r content key p (appended scan stored p' f g) h =
    Stores-has_dedup_key key p' (append_new-Stores c r content key scan p g)

-- Once an append with a deduplication key returned out of a batch, each later append with the
-- key, of whichever record has no payload or a dictionary as its payload, changes nothing and
-- returns a record that is not new.
pub append-once :
    (c : Call) (r : Fields) (content : Option Bytes) (key : String) (scan : Scan) (p : Process)
    {x : Fields × Bool} {p' : Process}
    → p.in_batch ≡ false
    → append c r content (some key) scan p ≡ (ok x, p')
    → (c₂ : Call) (r₂ : Fields) (content₂ : Option Bytes) (scan₂ : Scan)
      {event_type : Option String}
    → event_type_of (stamp c₂ p'.outbox r₂) ≡ ok event_type
    → (stored : Fields) × (append c₂ r₂ content₂ (some key) scan₂ p' ≡ (ok (stored, false), p'))
append-once c r content key scan p {x} {p'} out h c₂ r₂ content₂ scan₂ g =
    let known : has_dedup_key key (append c r content (some key) scan p).1.outbox ≡ true =
      Outcome-has_dedup_key c (stamp c p.outbox r) content key p
        (append-Outcome c r content (some key) scan p out)
        (ap (λ (y : Result (Fields × Bool) × Process). y.0) h) in
    append-hit c₂ r₂ content₂ key scan₂ p'
      (subst (λ (y : Result (Fields × Bool) × Process). has_dedup_key key y.1.outbox ≡ true) h
        known)
      g
