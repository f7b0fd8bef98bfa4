-- ===== src/Sync/Deliver/Split.antt =====
-- Ordered events, split where a batch ends; the delivery cursor as text.
use hermes_flight_recorder.Base.{
  Bool-cases, All, All-map, cons-injective, ℤ, pos, ◌<ℤ◌, str_int, int_text, int_text-str_int, ℕ,
  String, ◌≡◌, refl, sym, ap, ◌∙◌, inl, inr, false, some, List, [], ◌∷◌, ◌++◌, map, arith, ◌==◌,
  eq_iff,
}
use hermes_flight_recorder.Value.{Fields}
use hermes_flight_recorder.Result.{ok}
use hermes_flight_recorder.Outbox.State.{Event, Outbox, set_cursor, get_cursor-set_cursor, set_meta}
use hermes_flight_recorder.Outbox.Order.{Above, IsStamped, Above-All}
use hermes_flight_recorder.Sync.Deliver.{delivery_cursor_name, delivery_cursor, last_sequence}

abbrev pub envelopes : List Event → List Fields
envelopes es = map (λ (e : Event). e.envelope) es

-- A list of records in front of the envelopes of `todo` are the envelopes of a first part of it.
pub split_envelopes :
    (rs more : List Fields) (todo : List Event)
    → rs ++ more ≡ envelopes todo
    → (now after : List Event) × (todo ≡ now ++ after)
      × (rs ≡ envelopes now)
      × (more ≡ envelopes after)
split_envelopes [] more todo h = ([], todo, refl, refl, h)
split_envelopes (r ∷ rs) more [] h = absurd (cc h)
split_envelopes (r ∷ rs) more (e ∷ todo) h =
    let (x, tail) = cons-injective h in
    let (now, after, q, p, m) = split_envelopes rs more todo tail in
    (e ∷ now, after, ap (λ s. e ∷ s) q, cc (x, p), m)

-- The last of the records of a batch, and what follows it.
pub last_sequence-split :
    (n : ℕ) (now after : List Event) (c : ℤ)
    → All IsStamped now
    → Above n (now ++ after)
    → last_sequence (envelopes now) ≡ ok c
    → All (λ e. c <ℤ pos e.producer_sequence) after
unfolding last_sequence
last_sequence-split n [] after c st a h = absurd (cc h)
last_sequence-split n (e ∷ []) after c st a h =
    let same : c ≡ pos e.producer_sequence = cc (h, st.0) in
    rw same (All-map _ _ (λ f k. omega arith) after (Above-All e.producer_sequence after a.1))
last_sequence-split n (e ∷ f ∷ now) after c st a h =
    last_sequence-split e.producer_sequence (f ∷ now) after c st.1 a.1 h

pub Above-right : (n : ℕ) (xs ys : List Event) → Above n (xs ++ ys) → (m : ℕ) × Above m ys
Above-right n [] ys a = (n, a)
Above-right n (x ∷ xs) ys a = Above-right x.producer_sequence xs ys a.1

empty_has_no_int : (j : ℤ) → some j ≡ int_text "" → ⊥
unfolding int_text
empty_has_no_int j q = cc

str_int-not_empty : (i : ℤ) → (str_int i == "") ≡ false
str_int-not_empty i = elim (Bool-cases (str_int i == "")) [
  | inl e ↦
      absurd
        (empty_has_no_int i (sym (int_text-str_int i) ∙ ap int_text ((eq_iff (str_int i) "").0 e)))
  | inr e ↦ e
]

-- A delivery cursor that is stored is read back.
pub delivery_cursor-set_cursor :
    (c : ℤ) (o : Outbox) → delivery_cursor (set_cursor delivery_cursor_name c o) ≡ ok c
unfolding delivery_cursor
delivery_cursor-set_cursor c o =
    rw (get_cursor-set_cursor delivery_cursor_name c o)
      (rw (str_int-not_empty c) (rw (int_text-str_int c) refl))

pub events-set_cursor :
    (name : String) (c : ℤ) (o : Outbox) → (set_cursor name c o).events ≡ o.events
unfolding set_cursor set_meta
events-set_cursor name c o = refl
