-- ===== src/Outbox/Sound.antt =====
-- The invariant of the outbox: one unbroken sequence over events and tombstones.
use hermes_flight_recorder.Base.{
  leb, eqb, if◌then◌else◌, All, any, All-append, All-map, pos, negsuc, ℕ, ◌+◌, ◌≤◌, String, ◌≡◌,
  sym, ap, ◌∙◌, false, ◌&&◌, not, Option, none, some, List, [], ◌∷◌, ◌++◌, arith,
}
use hermes_flight_recorder.Value.{
  Value, Fields, object, integer, find, as_text, null, boolean, real, text, array,
}
use hermes_flight_recorder.Result.{
  ok, >>=-eq-ok, or_raise, or_raise-eq-ok, require, key_error, integrity_error,
}
use hermes_flight_recorder.Envelope.{validate}
use hermes_flight_recorder.Outbox.State.{Event, Tombstone, Outbox}
use hermes_flight_recorder.Value.Sort.{sort_fields, map_value, find-sort_fields, sort_value}
use hermes_flight_recorder.Envelope.Spec.{validate_iff}
use hermes_flight_recorder.Envelope.Stored.{sort_fields-IsEnvelope}
use hermes_flight_recorder.Outbox.Order.{Above, IsStamped}
use hermes_flight_recorder.Outbox.Insert.{insert_event, row_of, conflicts, as_natural, as_real}

-- How often a sequence is stored.
unfoldable pub count_events : ℕ → List Event → ℕ
count_events s [] = 0
count_events s (e ∷ es) = (if eqb e.producer_sequence s then 1 else 0) + count_events s es

unfoldable pub count_tombstones : ℕ → List Tombstone → ℕ
count_tombstones s [] = 0
count_tombstones s (e ∷ es) = (if eqb e.producer_sequence s then 1 else 0) + count_tombstones s es

abbrev pub stored_times : ℕ → Outbox → ℕ
stored_times s o = count_events s o.events + count_tombstones s o.tombstones

-- Every sequence from 1 to `k` is stored exactly once, and no other is; events stand in order,
-- and their rows hold valid envelopes with the row's sequence.
pub record IsSoundTo (k : ℕ) (o : Outbox) : Type 0 where
  pub ordered : Above 0 o.events
  pub bounded : All (λ e. e.producer_sequence ≤ k) o.events
  pub stamped : All IsStamped o.events
  pub valid : All (λ e. validate false (object e.envelope) ≡ ok e.envelope) o.events
  pub unbroken : (s : ℕ) → stored_times s o ≡ (if leb 1 s && leb s k then 1 else 0)

abbrev pub IsSound : Outbox → Type 0
IsSound o = IsSoundTo o.high_water o

Above-snoc :
    (n k : ℕ) (es : List Event) (e : Event)
    → Above n es
    → n ≤ k
    → All (λ f. f.producer_sequence ≤ k) es
    → e.producer_sequence ≡ k + 1
    → Above n (es ++ e ∷ [])
Above-snoc n k [] e a h b q = (omega arith, tt)
Above-snoc n k (f ∷ es) e a h b q = (a.0, Above-snoc f.producer_sequence k es e a.1 b.0 b.1 q)

pub count-snoc :
    (s : ℕ) (es : List Event) (e : Event)
    → count_events s (es ++ e ∷ [])
      ≡ count_events s es + (if eqb e.producer_sequence s then 1 else 0)
unfolding count_events
count-snoc s [] e = omega arith
count-snoc s (f ∷ es) e = omega (arith, count-snoc s es e)

as_natural-eq_some : (o : Option Value) (n : ℕ) → as_natural o ≡ some n → o ≡ some (integer (pos n))
as_natural-eq_some none n h = cc
as_natural-eq_some (some null) n h = cc
as_natural-eq_some (some (boolean _)) n h = cc
as_natural-eq_some (some (integer (pos m))) n h = cc
as_natural-eq_some (some (integer (negsuc m))) n h = cc
as_natural-eq_some (some (real _)) n h = cc
as_natural-eq_some (some (text _)) n h = cc
as_natural-eq_some (some (array _)) n h = cc
as_natural-eq_some (some (object _)) n h = cc

-- The row of an inserted record.
pub record IsRowOf (r : Fields) (dedup_key : Option String) (o o' : Outbox) (e : Event)
    : Type 0 where
  pub events : o'.events ≡ o.events ++ e ∷ []
  pub tombstones : o'.tombstones ≡ o.tombstones
  pub high_water : o'.high_water ≡ o.high_water
  pub envelope : e.envelope ≡ sort_fields r
  pub sequence : find "producer_sequence" r ≡ some (integer (pos e.producer_sequence))
  pub dedup : e.dedup_key ≡ dedup_key

pub insert_event-row :
    (r : Fields) (dedup_key : Option String) (o : Outbox) {o' : Outbox}
    → insert_event r dedup_key o ≡ ok o'
    → (e : Event) × IsRowOf r dedup_key o o' e
unfolding insert_event
insert_event-row r dedup_key o h =
    let (e, h₁, h₂) = >>=-eq-ok (row_of r dedup_key) _ h in
    let (u, _, h₃) = >>=-eq-ok (require (not (any (conflicts e) o.events)) integrity_error) _ h₂ in
    let (id, _, g₁) = >>=-eq-ok (or_raise key_error (as_text (find "event_id" r))) _ h₁ in
    let (n, s, g₂) =
      >>=-eq-ok (or_raise key_error (as_natural (find "producer_sequence" r))) _ g₁ in
    let (t, _, g₃) = >>=-eq-ok (or_raise key_error (as_real (find "recorded_at" r))) _ g₂ in
    (
      e,
      record {
        events = cc;
        tombstones = cc;
        high_water = cc;
        envelope = cc;
        dedup = cc;
        sequence =
            as_natural-eq_some _ n (or_raise-eq-ok _ _ s)
            ∙ ap (λ k. some (integer (pos k))) (let same : n ≡ e.producer_sequence = cc in same);
      },
    )

some_integer :
    {m n : ℕ} → ◌≡◌ {A = Option Value} (some (integer (pos m))) (some (integer (pos n))) → m ≡ n
some_integer h = cc

stored_stamp :
    (r : Fields) (e : Event)
    → e.envelope ≡ sort_fields r
    → find "producer_sequence" r ≡ some (integer (pos e.producer_sequence))
    → IsStamped e
unfolding sort_value
stored_stamp r e q s =
    ap (find "producer_sequence") q
    ∙ find-sort_fields "producer_sequence" r
    ∙ ap (map_value sort_value) s

stored_valid :
    (r : Fields)
    → validate false (object r) ≡ ok r
    → validate false (object (sort_fields r)) ≡ ok (sort_fields r)
stored_valid r v =
    (validate_iff false (sort_fields r)).1
      (sort_fields-IsEnvelope false r ((validate_iff false r).0 v))

-- A valid record with the next sequence keeps the invariant, one sequence further.
pub insert_event-IsSoundTo :
    (k : ℕ) (r : Fields) (dedup_key : Option String) (o : Outbox) {o' : Outbox}
    → insert_event r dedup_key o ≡ ok o'
    → find "producer_sequence" r ≡ some (integer (pos (k + 1)))
    → validate false (object r) ≡ ok r
    → IsSoundTo k o
    → IsSoundTo (k + 1) o' × (o'.high_water ≡ o.high_water)
insert_event-IsSoundTo k r dedup_key o {o'} h q v s =
    let (e, row) = insert_event-row r dedup_key o h in
    let at_k : e.producer_sequence ≡ k + 1 = some_integer (sym row.sequence ∙ q) in
    (
      record {
        ordered = rw row.events (Above-snoc 0 k o.events e s.ordered (omega arith) s.bounded at_k);
        bounded = rw row.events (
            All-append (λ f. f.producer_sequence ≤ k + 1) o.events (e ∷ [])
              (All-map _ _ (λ f b. omega arith) o.events s.bounded) (omega arith, tt));
        stamped = rw row.events (
            All-append IsStamped o.events (e ∷ []) s.stamped
              (stored_stamp r e row.envelope row.sequence, tt));
        valid = rw row.events (
            All-append (λ f. validate false (object f.envelope) ≡ ok f.envelope) o.events (e ∷ [])
              s.valid (rw row.envelope (stored_valid r v), tt));
        unbroken = λ i.
            rw (row.events, row.tombstones) (ground (arith, s.unbroken i, count-snoc i o.events e));
      },
      row.high_water,
    )
