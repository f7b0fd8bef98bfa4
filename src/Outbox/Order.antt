-- ===== src/Outbox/Order.antt =====
-- Events in ascending order of their sequences, as a query reads them.
use hermes_flight_recorder.Base.{
  keep-true, keep-false, Bool-cases, All, keep, All-map, ℤ, pos, ◌≤ℤ◌, ◌<ℤ◌, lt_int, ℕ, ◌≤◌, ◌<◌,
  ◌≡◌, refl, ap, ◌∙◌, inl, inr, Bool, some, List, [], ◌∷◌, ◌++◌, map, arith,
}
use hermes_flight_recorder.Value.{integer, find}
use hermes_flight_recorder.Outbox.State.{Event, Outbox, insert_by, order_by, iter_events}

-- Sequences grow strictly, and are above `n`.
abbrev pub Above : ℕ → List Event → Type 0
Above n [] = Unit
Above n (e ∷ es) = (n < e.producer_sequence) × Above e.producer_sequence es

-- The row's sequence is the one in its envelope.
abbrev pub IsStamped : Event → Type 0
IsStamped e = find "producer_sequence" e.envelope ≡ some (integer (pos e.producer_sequence))

abbrev pub sequence_of : Event → ℕ
sequence_of e = e.producer_sequence

pub Above-weaken : (m n : ℕ) (es : List Event) → m ≤ n → Above n es → Above m es
Above-weaken m n [] h a = tt
Above-weaken m n (e ∷ es) h a = (omega arith, a.1)

pub Above-All : (n : ℕ) (es : List Event) → Above n es → All (λ e. n < e.producer_sequence) es
Above-All n [] a = tt
Above-All n (e ∷ es) a =
    (a.0, Above-All n es (Above-weaken n e.producer_sequence es (omega arith) a.1))

pub Above-keep : (p : Event → Bool) (n : ℕ) (es : List Event) → Above n es → Above n (keep p es)
Above-keep p n [] a = tt
Above-keep p n (e ∷ es) a = elim (Bool-cases (p e)) [
  | inl h ↦ rw (keep-true p e es h) (a.0, Above-keep p e.producer_sequence es a.1)
  | inr h ↦ rw (keep-false p e es h) (
      Above-weaken n e.producer_sequence (keep p es) (omega arith)
        (Above-keep p e.producer_sequence es a.1))
]

insert_by-Above :
    (e : Event) (es : List Event)
    → Above e.producer_sequence es
    → insert_by sequence_of e es ≡ e ∷ es
unfolding insert_by
insert_by-Above e [] a = refl
insert_by-Above e (f ∷ es) a = ground arith

pub order_by-Above : (n : ℕ) (es : List Event) → Above n es → order_by sequence_of es ≡ es
unfolding order_by
order_by-Above n [] a = refl
order_by-Above n (e ∷ es) a =
    ap (insert_by sequence_of e) (order_by-Above e.producer_sequence es a.1)
    ∙ insert_by-Above e es a.1

abbrev pub is_after : ℤ → Event → Bool
is_after c e = lt_int c (pos e.producer_sequence)

-- On ordered events the query is a selection.
pub iter_events-keep :
    (c : ℤ) (o : Outbox) (n : ℕ)
    → Above n o.events
    → iter_events c o ≡ map (λ (e : Event). e.envelope) (keep (is_after c) o.events)
unfolding iter_events
iter_events-keep c o n a =
    ap (map (λ (e : Event). e.envelope))
      (order_by-Above n (keep (is_after c) o.events) (Above-keep (is_after c) n o.events a))

keep-all :
    (c : ℤ) (es : List Event)
    → All (λ e. c <ℤ pos e.producer_sequence) es
    → keep (is_after c) es ≡ es
keep-all c [] h = refl
keep-all c (e ∷ es) h = ground (arith, keep-all c es h.1)

-- Ordered events split at a cursor.
pub split_at_cursor :
    (c : ℤ) (n : ℕ) (es : List Event)
    → Above n es
    → (done : List Event) × (es ≡ done ++ keep (is_after c) es)
      × All (λ e. pos e.producer_sequence ≤ℤ c) done
      × All (λ e. c <ℤ pos e.producer_sequence) (keep (is_after c) es)
split_at_cursor c n [] a = ([], refl, tt, tt)
split_at_cursor c n (e ∷ es) a = elim (Bool-cases (is_after c e)) [
  | inl h ↦
      let over : c <ℤ pos e.producer_sequence = ground arith in
      let above : All (λ f. c <ℤ pos f.producer_sequence) es =
        All-map _ _ (λ f k. omega arith) es (Above-All e.producer_sequence es a.1) in
      rw (keep-true (is_after c) e es h ∙ ap (λ s. e ∷ s) (keep-all c es above))
        ([], refl, tt, (over, above))
  | inr h ↦
      let (done, q, low, high) = split_at_cursor c e.producer_sequence es a.1 in
      rw (keep-false (is_after c) e es h) (e ∷ done, ap (λ s. e ∷ s) q, (ground arith, low), high)
]
