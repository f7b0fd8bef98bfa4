-- ===== src/Sync/Batches/Contents.antt =====
-- What the batches hold: the records, in order and unchanged; and when the generator raises.
use hermes_flight_recorder.Base.{
  ltb, leb, leb→le, Bool-cases, length, concat, ℤ, ℕ, ◌+◌, ◌≤◌, String, ◌≡◌, refl, sym, ap, ◌∙◌,
  ◌↔◌, ◌⊎◌, inl, inr, true, false, ◌||◌, Option, none, some, List, [], ◌∷◌, ◌++◌, map, append-nil,
  append_assoc, arith,
}
use hermes_flight_recorder.Value.{
  Fields, object, text, integer, find, as_text, as_integer, as_text-eq_some, as_integer-eq_some,
}
use hermes_flight_recorder.Envelope.{validate}
use hermes_flight_recorder.Envelope.Spec.{validate-eq-ok}
use hermes_flight_recorder.Result.{
  Result, key_error, require, sync_error, Error, >>=-eq-ok, or_raise-eq-ok, Result-cases, ok,
  require-eq-ok, err, or_raise,
}
use hermes_flight_recorder.Sync.Batches.{
  max_ingest_batch_bytes, empty_batch_wire, record_json, Batch, preserialized, Limits, Builder,
  start, admit, is_empty, restart, join, same_installation, follows, finish, build_from,
  build_batches,
}
use hermes_flight_recorder.Sync.Batches.Steps.{round, raises, yields, joins}

abbrev pub batch_records : List Batch → List Fields
batch_records batches = concat (map (λ (b : Batch). b.records) batches)

abbrev IsPrefixOf : List Fields → List Batch × Result (Unit {0}) → Type 0
IsPrefixOf records (batches, outcome) =
    (rest : List Fields) × (batch_records batches ++ rest ≡ records) × (outcome ≡ ok tt → rest ≡ [])

is_empty-nil : (rs : List Fields) → is_empty rs ≡ true → rs ≡ []
is_empty-nil [] h = refl
is_empty-nil (r ∷ rs) h = absurd cc

-- The batches, after the one under construction is joined to the records.
build_from-IsPrefixOf :
    (l : Limits) (b : Builder) (rs : List Fields) → IsPrefixOf (b.current ++ rs) (build_from l b rs)
unfolding restart join preserialized finish
build_from-IsPrefixOf l b [] =
    unfold build_from in
    (elim (Bool-cases (is_empty b.current)) [
      | inl e ↦
          rw (e, finish) ([], sym (append-nil b.current ∙ is_empty-nil b.current e), λ h. refl)
      | inr e ↦ rw (e, finish) ([], append-nil (b.current ++ []), λ h. refl)
    ])
build_from-IsPrefixOf l b (r ∷ rs) = elim (round l b r rs) [
  | raises e a q ↦ rw q (b.current ++ r ∷ rs, refl, λ h. absurd (cc h))
  | yields stamp a f q ↦
      let (rest, whole, ends) = build_from-IsPrefixOf l (restart r stamp) rs in
      rw q (
        rest,
        append_assoc b.current (batch_records (build_from l (restart r stamp) rs).0) rest
            ∙ ap (λ xs. b.current ++ xs) whole,
        ends,
      )
  | joins stamp a f q ↦
      let (rest, whole, ends) = build_from-IsPrefixOf l (join b r stamp) rs in
      rw q (rest, whole ∙ append_assoc b.current (r ∷ []) rs, ends)
]

build_batches-whole :
    (l : Limits) (records : List Fields)
    → (rest : List Fields) × (batch_records (build_batches l records).0 ++ rest ≡ records)
      × ((build_batches l records).1 ≡ ok tt → rest ≡ [])
unfolding build_batches
build_batches-whole l records = elim (Bool-cases (ltb l.max_records 1 || ltb l.max_bytes 1)) [
  | inl e ↦ rw e (records, refl, λ h. absurd (cc h))
  | inr e ↦ rw e (build_from-IsPrefixOf l start records)
]

-- The batches hold a prefix of the records, in order and unchanged: all of them, unless the
-- generator raises.
pub build_batches-IsPrefixOf :
    (l : Limits) (records : List Fields)
    → (rest : List Fields) × (batch_records (build_batches l records).0 ++ rest ≡ records)
      × ((rest ≡ []) ⊎ ((e : Error) × ((build_batches l records).1 ≡ err e)))
build_batches-IsPrefixOf l records =
    let (rest, whole, ends) = build_batches-whole l records in
    (
      rest,
      whole,
      elim (Result-cases (build_batches l records).1) [
        | inl (u, q) ↦ inl (ends q)
        | inr (e, q) ↦ inr (e, q)
      ],
    )

-- The records that one pass can ship, after an installation and a sequence: each is a valid
-- envelope of that installation, has a larger sequence than the one before, and fits a request.
abbrev pub IsShippable : Option String → Option ℤ → List Fields → Type 0
IsShippable installation previous [] = Unit
IsShippable installation previous (r ∷ rs) =
    (id : String) × (s : ℤ) × (validate false (object r) ≡ ok r)
    × (find "installation_id" r ≡ some (text id))
    × (same_installation installation id ≡ true)
    × (find "producer_sequence" r ≡ some (integer s))
    × (follows previous s ≡ true)
    × (length empty_batch_wire + length (record_json r) ≤ max_ingest_batch_bytes)
    × IsShippable (some id) (some s) rs

le→leb : (a b : ℕ) → a ≤ b → leb a b ≡ true
le→leb a b h = ground arith

-- What the checks of the loop's body establish for one record.
abbrev IsAdmitted : Builder → Fields → String → ℤ → Type 0
IsAdmitted b r id s =
    (validate false (object r) ≡ ok r)
    × (find "installation_id" r ≡ some (text id))
    × (same_installation b.installation_id id ≡ true)
    × (find "producer_sequence" r ≡ some (integer s))
    × (follows b.previous_sequence s ≡ true)
    × (length empty_batch_wire + length (record_json r) ≤ max_ingest_batch_bytes)

ok_pair :
    {i id : String} {n s : ℤ}
    → ◌≡◌ {A = Result (String × ℤ)} (ok (i, n)) (ok (id, s))
    → (i ≡ id) × (n ≡ s)
ok_pair h = (cc, cc)

admit-IsAdmitted :
    (b : Builder) (r : Fields) (id : String) (s : ℤ) → admit b r ≡ ok (id, s) → IsAdmitted b r id s
unfolding admit
admit-IsAdmitted b r id s h =
    let (c, e₁, h₁) = >>=-eq-ok (validate false (object r)) _ h in
    let (i, e₂, h₂) = >>=-eq-ok (or_raise key_error (as_text (find "installation_id" r))) _ h₁ in
    let (u, e₃, h₃) = >>=-eq-ok (require (same_installation b.installation_id i) sync_error) _ h₂ in
    let (n, e₄, h₄) =
      >>=-eq-ok (or_raise key_error (as_integer (find "producer_sequence" r))) _ h₃ in
    let (v, e₅, h₅) = >>=-eq-ok (require (follows b.previous_sequence n) sync_error) _ h₄ in
    let (w, e₆, h₆) =
      >>=-eq-ok
        (require (leb (length empty_batch_wire + length (record_json r)) max_ingest_batch_bytes)
          sync_error)
        _ h₅ in
    let (same_id, same_s) = ok_pair h₆ in
    (
      validate-eq-ok false r e₁,
      as_text-eq_some _ i (or_raise-eq-ok _ _ e₂) ∙ ap (λ k. some (text k)) same_id,
      ap (same_installation b.installation_id) (sym same_id) ∙ require-eq-ok _ _ e₃,
      as_integer-eq_some _ n (or_raise-eq-ok _ _ e₄) ∙ ap (λ k. some (integer k)) same_s,
      ap (follows b.previous_sequence) (sym same_s) ∙ require-eq-ok _ _ e₅,
      leb→le _ _ (require-eq-ok _ _ e₆),
    )

IsAdmitted-admit :
    (b : Builder) (r : Fields) (id : String) (s : ℤ) → IsAdmitted b r id s → admit b r ≡ ok (id, s)
unfolding admit
IsAdmitted-admit b r id s (e₁, e₂, e₃, e₄, e₅, e₆) =
    rw e₁ (rw e₂ (rw e₃ (rw e₄ (rw e₅ (rw (le→leb _ _ e₆) refl)))))

build_from-IsShippable :
    (l : Limits) (b : Builder) (rs : List Fields)
    → (build_from l b rs).1 ≡ ok tt
    → IsShippable b.installation_id b.previous_sequence rs
unfolding restart join
build_from-IsShippable l b [] h = tt
build_from-IsShippable l b (r ∷ rs) h = elim (round l b r rs) [
  | raises e a q ↦ absurd (cc (h, q))
  | yields (id, s) a f q ↦
      let (e₁, e₂, e₃, e₄, e₅, e₆) = admit-IsAdmitted b r id s a in
      (id, s, e₁, e₂, e₃, e₄, e₅, e₆, build_from-IsShippable l (restart r (id, s)) rs (rw q at h))
  | joins (id, s) a f q ↦
      let (e₁, e₂, e₃, e₄, e₅, e₆) = admit-IsAdmitted b r id s a in
      (id, s, e₁, e₂, e₃, e₄, e₅, e₆, build_from-IsShippable l (join b r (id, s)) rs (rw q at h))
]

IsShippable-build_from :
    (l : Limits) (b : Builder) (rs : List Fields)
    → IsShippable b.installation_id b.previous_sequence rs
    → (build_from l b rs).1 ≡ ok tt
unfolding restart join
IsShippable-build_from l b [] h =
    unfold build_from finish in
    (elim (Bool-cases (is_empty b.current)) [ inl e ↦ rw e | inr e ↦ rw e ])
IsShippable-build_from l b (r ∷ rs) (id, s, e₁, e₂, e₃, e₄, e₅, e₆, h) =
    let admitted = IsAdmitted-admit b r id s (e₁, e₂, e₃, e₄, e₅, e₆) in
    elim (round l b r rs) [
      | raises e a q ↦ absurd (cc (a, admitted))
      | yields (id', s') a f q ↦
          let (same_id, same_s) = ok_pair (sym a ∙ admitted) in
          rw q (IsShippable-build_from l (restart r (id', s')) rs (rw (same_id, same_s) h))
      | joins (id', s') a f q ↦
          let (same_id, same_s) = ok_pair (sym a ∙ admitted) in
          rw q (IsShippable-build_from l (join b r (id', s')) rs (rw (same_id, same_s) h))
    ]

pub build_batches_ok_iff :
    (l : Limits) (records : List Fields)
    → 1 ≤ l.max_records
    → 1 ≤ l.max_bytes
    → ((build_batches l records).1 ≡ ok tt) ↔ IsShippable none none records
unfolding build_batches
build_batches_ok_iff l records m n =
    let checked : ltb l.max_records 1 || ltb l.max_bytes 1 ≡ false = ground arith in
    rw checked (build_from-IsShippable l start records, IsShippable-build_from l start records)
