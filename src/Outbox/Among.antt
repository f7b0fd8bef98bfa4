-- ===== src/Outbox/Among.antt =====
-- Membership of a row in the table of events, and in a selection of it.
use hermes_flight_recorder.Base.{
  Bool-cases, All, keep, All-map, keep-true, keep-false, ◌≡◌, refl, subst, ◌⊎◌, inl, inr, Bool,
  true, List, [], ◌∷◌,
}
use hermes_flight_recorder.Outbox.State.{Event}

abbrev pub IsAmong : Event → List Event → Type 0
IsAmong e [] = ⊥
IsAmong e (f ∷ fs) = (f ≡ e) ⊎ IsAmong e fs

pub IsAmong-All : (P : Event → Type 0) (es : List Event) (e : Event) → All P es → IsAmong e es → P e
IsAmong-All P [] e h a = absurd a
IsAmong-All P (f ∷ fs) e h (inl q) = subst P q h.0
IsAmong-All P (f ∷ fs) e h (inr a) = IsAmong-All P fs e h.1 a

pub IsAmong-keep :
    (p : Event → Bool) (es : List Event) (e : Event)
    → p e ≡ true
    → IsAmong e es
    → IsAmong e (keep p es)
IsAmong-keep p [] e h a = a
IsAmong-keep p (f ∷ fs) e h (inl q) =
    let f_kept : p f ≡ true = rw q h in rw (keep-true p f fs f_kept) (inl q)
IsAmong-keep p (f ∷ fs) e h (inr a) = elim (Bool-cases (p f)) [
  | inl k ↦ rw (keep-true p f fs k) (inr (IsAmong-keep p fs e h a))
  | inr k ↦ rw (keep-false p f fs k) (IsAmong-keep p fs e h a)
]

pub keep-IsAmong :
    (p : Event → Bool) (es : List Event) (e : Event) → IsAmong e (keep p es) → IsAmong e es
keep-IsAmong p [] e a = a
keep-IsAmong p (f ∷ fs) e a = elim (Bool-cases (p f)) [
  | inl k ↦ elim (rw (keep-true p f fs k) at a) [
    | inl q ↦ inl q
    | inr b ↦ inr (keep-IsAmong p fs e b)
  ]
  | inr k ↦ inr (keep-IsAmong p fs e (rw (keep-false p f fs k) at a))
]

pub IsAmong-self : (es : List Event) → All (λ e. IsAmong e es) es
IsAmong-self [] = tt
IsAmong-self (e ∷ es) = (
  inl refl,
  All-map (λ f. IsAmong f es) (λ f. IsAmong f (e ∷ es)) (λ f a. inr a) es (IsAmong-self es),
)
