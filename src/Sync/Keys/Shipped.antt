-- ===== src/Sync/Keys/Shipped.antt =====
-- A wrapped key is marked as shipped only after the service accepted it.
use hermes_flight_recorder.Base.{
  Bool-cases, take, All, All-map, ℕ, zero, suc, String, ◌≡◌, refl, sym, ap, ◌∙◌, subst, ◌⊎◌, inl,
  inr, Option, none, some, List, [], ◌∷◌, map, ◌==◌, eq_iff,
}
use hermes_flight_recorder.Value.{Fields, find, as_text}
use hermes_flight_recorder.Result.{
  Result, ok, >>=-eq-ok, Result-cases, or_raise, or_raise-eq-ok, key_error, ok-injective,
}
use hermes_flight_recorder.Outbox.State.{ContentKey, Outbox}
use hermes_flight_recorder.Sync.Batches.{Batch, Yields}
use hermes_flight_recorder.Sync.Deliver.{slice, at_least_one}
use hermes_flight_recorder.Sync.Keys.{
  KeyAck, Shipment, key_record, iter_unshipped_content_keys, mark_one, mark_all,
  mark_content_keys_shipped, key_versions, validate_key_ack, confirm_keys, ship, ship_pending,
  sync_content_keys, build_key_batches,
}
use hermes_flight_recorder.Sync.Keys.Grouping.{IsOf, build_key_batches-All}

-- The service's identity of a record is held.
abbrev pub IsHeldAs :
    {T : Type 0} → (T → String → String → Type 0) → T → Option String → Option String → Type 0
IsHeldAs holds t (some id) (some version) = holds t id version
IsHeldAs holds t _ _ = Unit

abbrev pub IsAccepted : {T : Type 0} → (T → String → String → Type 0) → T → Fields → Type 0
IsAccepted holds t r =
    IsHeldAs holds t (as_text (find "installation_id" r)) (as_text (find "key_version" r))

-- What the side channel promises: it acknowledges only what it durably holds, and loses nothing.
pub record IsKeyDurable {T : Type 0} (send_keys : Batch → T → Result KeyAck × T)
    (holds : T → String → String → Type 0) : Type 0 where
  pub accepts :
      (b : Batch) (t : T) (ack : KeyAck)
      → (send_keys b t).0 ≡ ok ack
      → All (IsAccepted holds (send_keys b t).1) b.records
  pub keeps :
      (b : Batch) (t : T) (id version : String)
      → holds t id version
      → holds (send_keys b t).1 id version

-- A key that is marked is held.
abbrev pub IsShipSafe :
    {T : Type 0} → (T → String → String → Type 0) → String → List ContentKey → T → Type 0
IsShipSafe holds id ks t =
    All (λ (k : ContentKey). (k.shipped_at ≡ none) ⊎ holds t id k.key_version) ks

-- A key without its mark
abbrev pub unmarked : ContentKey → ContentKey
unmarked k = record k { shipped_at = none }

-- An outbox with the same tables but for the marks of the content keys
pub record SameButMarks (o o' : Outbox) : Type 0 where
  pub installation_id : o'.installation_id ≡ o.installation_id
  pub high_water : o'.high_water ≡ o.high_water
  pub events : o'.events ≡ o.events
  pub tombstones : o'.tombstones ≡ o.tombstones
  pub meta : o'.meta ≡ o.meta
  pub content_keys : map unmarked o'.content_keys ≡ map unmarked o.content_keys

pub SameButMarks-refl : (o : Outbox) → SameButMarks o o
SameButMarks-refl o = record {
  installation_id = refl;
  high_water = refl;
  events = refl;
  tombstones = refl;
  meta = refl;
  content_keys = refl;
}

unmarked-mark_one :
    (now : ℕ) (version : String) (ks : List ContentKey)
    → map unmarked (mark_one now ks version) ≡ map unmarked ks
unfolding mark_one
unmarked-mark_one now version [] = refl
unmarked-mark_one now version (k ∷ ks) =
    let rest = unmarked-mark_one now version ks in
    elim (Bool-cases (k.key_version == version)) [
      | inl q ↦ rw q (ap (λ r. unmarked k ∷ r) rest)
      | inr q ↦ rw q (ap (λ r. unmarked k ∷ r) rest)
    ]

unmarked-mark_all :
    (now : ℕ) (versions : List String) (ks : List ContentKey)
    → map unmarked (mark_all now versions ks) ≡ map unmarked ks
unfolding mark_all
unmarked-mark_all now [] ks = refl
unmarked-mark_all now (version ∷ versions) ks =
    unmarked-mark_all now versions (mark_one now ks version) ∙ unmarked-mark_one now version ks

module _ (P : String → Type 0) where
  mark_one-All :
      (now : ℕ) (version : String) (ks : List ContentKey)
      → P version
      → All (λ (k : ContentKey). (k.shipped_at ≡ none) ⊎ P k.key_version) ks
      → All (λ (k : ContentKey). (k.shipped_at ≡ none) ⊎ P k.key_version) (mark_one now ks version)
  unfolding mark_one
  mark_one-All now version [] h a = tt
  mark_one-All now version (k ∷ ks) h a = elim (Bool-cases (k.key_version == version)) [
    | inl q ↦ (
      rw q (inr (subst P (sym ((eq_iff k.key_version version).0 q)) h)),
      mark_one-All now version ks h a.1,
    )
    | inr q ↦ (rw q a.0, mark_one-All now version ks h a.1)
  ]

  mark_all-All :
      (now : ℕ) (versions : List String) (ks : List ContentKey)
      → All P versions
      → All (λ (k : ContentKey). (k.shipped_at ≡ none) ⊎ P k.key_version) ks
      → All (λ (k : ContentKey). (k.shipped_at ≡ none) ⊎ P k.key_version) (mark_all now versions ks)
  unfolding mark_all
  mark_all-All now [] ks h a = a
  mark_all-All now (version ∷ versions) ks h a =
      mark_all-All now versions (mark_one now ks version) h.1 (mark_one-All now version ks h.0 a)

key_versions-held :
    {T : Type 0} (holds : T → String → String → Type 0) (t : T) (id : String) (rs : List Fields)
    {versions : List String}
    → key_versions rs ≡ ok versions
    → All (IsOf id) rs
    → All (IsAccepted holds t) rs
    → All (holds t id) versions
unfolding key_versions
key_versions-held holds t id [] q h a = subst (All (holds t id)) (ok-injective q) tt
key_versions-held holds t id (r ∷ rs) q h a =
    let (version, e₁, q₁) = >>=-eq-ok (or_raise key_error (as_text (find "key_version" r))) _ q in
    let (versions, e₂, q₂) = >>=-eq-ok (key_versions rs) _ q₁ in
    let v = or_raise-eq-ok key_error (as_text (find "key_version" r)) e₁ in
    let held : holds t id version = rw (h.0, v) at a.0 in
    subst (All (holds t id)) (ok-injective q₂) (held, key_versions-held holds t id rs e₂ h.1 a.1)

map-IsOf : (id : String) (ks : List ContentKey) → All (IsOf id) (map (key_record id) ks)
unfolding key_record find
map-IsOf id [] = tt
map-IsOf id (k ∷ ks) = (refl, map-IsOf id ks)

pub pending-IsOf : (o : Outbox) → All (IsOf o.installation_id) (iter_unshipped_content_keys o)
unfolding iter_unshipped_content_keys
pending-IsOf o = map-IsOf o.installation_id _

take-All : {A : Type 0} (P : A → Type 0) (n : ℕ) (xs : List A) → All P xs → All P (take n xs)
take-All P zero xs h = tt
take-All P (suc n) [] h = tt
take-All P (suc n) (x ∷ xs) h = (h.0, take-All P n xs h.1)

slice-All : (P : Batch → Type 0) (m : Option ℕ) (y : Yields) → All P y.0 → All P (slice m y).0
slice-All P none y h = h
slice-All P (some n) (batches, outcome) h = take-All P n batches h

module _ {T : Type 0} (send_keys : Batch → T → Result KeyAck × T)
    (holds : T → String → String → Type 0) (d : IsKeyDurable send_keys holds) (now : ℕ) where
  -- What a round of the loop leaves
  record IsShipped (o : Outbox) (s : Shipment T) : Type 0 where
    same : SameButMarks o s.outbox
    safe : IsShipSafe holds o.installation_id s.outbox.content_keys s.transport

  IsShipped-answered :
      (o : Outbox) (b : Batch) (s : Shipment T)
      → IsShipped o s
      → IsShipped o (record s { transport = (send_keys b s.transport).1 })
  IsShipped-answered o b s k = record {
    same = k.same;
    safe =
        All-map _ _
          (λ (key : ContentKey) h. elim h [
            | inl n ↦ inl n
            | inr p ↦ inr (d.keeps b s.transport o.installation_id key.key_version p)
          ])
          s.outbox.content_keys k.safe;
  }

  confirm_keys-IsShipped :
      (o : Outbox) (b : Batch) (ack : KeyAck) (s : Shipment T) {s' : Shipment T}
      → All (IsOf o.installation_id) b.records
      → All (IsAccepted holds s.transport) b.records
      → confirm_keys now b ack s ≡ ok s'
      → IsShipped o s
      → IsShipped o s'
  unfolding confirm_keys mark_content_keys_shipped
  confirm_keys-IsShipped o b ack s h a q k =
      let (u, _, q₁) = >>=-eq-ok (validate_key_ack ack b) _ q in
      let (versions, e, q₂) = >>=-eq-ok (key_versions b.records) _ q₁ in
      let held = key_versions-held holds s.transport o.installation_id b.records e h a in
      subst (IsShipped o) (ok-injective q₂) record {
        same = record {
          installation_id = k.same.installation_id;
          high_water = k.same.high_water;
          events = k.same.events;
          tombstones = k.same.tombstones;
          meta = k.same.meta;
          content_keys = unmarked-mark_all now versions s.outbox.content_keys ∙ k.same.content_keys;
        };
        safe =
            mark_all-All (λ v. holds s.transport o.installation_id v) now versions
              s.outbox.content_keys held k.safe;
      }

  ship-IsShipped :
      (o : Outbox) (bs : List Batch) (s : Shipment T)
      → All (λ (b : Batch). All (IsOf o.installation_id) b.records) bs
      → IsShipped o s
      → IsShipped o (ship send_keys now bs s).1
  unfolding ship
  ship-IsShipped o [] s h k = k
  ship-IsShipped o (b ∷ bs) s h k =
      let s₁ : Shipment T = record s { transport = (send_keys b s.transport).1 } in
      let k₁ = IsShipped-answered o b s k in
      elim (Result-cases (send_keys b s.transport).0) [
        | inr (e, f) ↦ rw (f, ship) k₁
        | inl (ack, f) ↦ elim (Result-cases (confirm_keys now b ack s₁)) [
          | inr (e, g) ↦ rw (f, g, ship) k₁
          | inl (s₂, g) ↦
              rw (f, g, ship)
                (ship-IsShipped o bs s₂ h.1
                  (confirm_keys-IsShipped o b ack s₁ h.0 (d.accepts b s.transport ack f) g k₁))
        ]
      ]

  ship_pending-IsShipped :
      (max_records : ℕ) (max_batches : Option ℕ) (o : Outbox) (t : T)
      → IsShipSafe holds o.installation_id o.content_keys t
      → IsShipped o (ship_pending send_keys now max_records max_batches o t).1
  unfolding ship_pending
  ship_pending-IsShipped max_records max_batches o t safe =
      let y = build_key_batches max_records (iter_unshipped_content_keys o) in
      ship-IsShipped o (slice max_batches y).0 _
        (slice-All (λ (b : Batch). All (IsOf o.installation_id) b.records) max_batches y
          (build_key_batches-All (IsOf o.installation_id) max_records _ (pending-IsOf o)))
        record { same = SameButMarks-refl o; safe = safe }

  -- The wrapped keys are shipped safely, however the pass ends: over a side channel that
  -- acknowledges only what it durably holds, if every key that is marked as shipped was held
  -- before the pass, so it is after it, and nothing of the
  -- outbox but the marks of its keys is changed.
  pub sync_content_keys-IsShipSafe :
      (max_records : ℕ) (max_batches : Option ℕ) (o : Outbox) (t : T)
      → IsShipSafe holds o.installation_id o.content_keys t
      → let q = sync_content_keys send_keys now max_records max_batches o t in
        IsShipSafe holds o.installation_id q.1.content_keys q.2 × SameButMarks o q.1
  unfolding sync_content_keys
  sync_content_keys-IsShipSafe max_records max_batches o t safe =
      elim (Bool-cases (at_least_one max_batches)) [
        | inr e ↦ rw (e, sync_content_keys) (safe, SameButMarks-refl o)
        | inl e ↦
            let k = ship_pending-IsShipped max_records max_batches o t safe in
            rw (e, sync_content_keys) (k.safe, k.same)
      ]
