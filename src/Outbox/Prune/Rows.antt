-- ===== src/Outbox/Prune/Rows.antt =====
-- The rows that a prune chooses, and how a selection splits the table.
use hermes_flight_recorder.Base.{
  ltb, leb, eqb, if◌then◌else◌, Bool-cases, All, any, keep, All-append, keep-true, keep-false, ℤ,
  pos, le_int, ℕ, ◌+◌, ◌-◌, ◌≡◌, refl, sym, ap, subst, inl, inr, Bool, true, false, not, Option,
  none, some, List, [], ◌∷◌, ◌++◌, arith,
}
use hermes_flight_recorder.Result.{ok, >>=-eq-ok, require, integrity_error, ok-injective}
use hermes_flight_recorder.Outbox.State.{Event, Tombstone, insert_by, order_by, event_bytes}
use hermes_flight_recorder.Outbox.Sound.{count_events, count_tombstones}
use hermes_flight_recorder.Outbox.Prune.{
  is_delivered, by_age, by_size, victims, over_budget, oldest_first, total_bytes, is_in,
  sequence_of, store_tombstones, tombstone_of, clashes, retention_summary,
}

module _ (P : Event → Type 0) where
  All-insert_by :
      (e : Event) (es : List Event) → P e → All P es → All P (insert_by sequence_of e es)
  unfolding insert_by
  All-insert_by e [] h k = (h, tt)
  All-insert_by e (f ∷ es) h k = elim (Bool-cases (leb e.producer_sequence f.producer_sequence)) [
    | inl q ↦ rw (q, insert_by) (h, k)
    | inr q ↦ rw (q, insert_by) (k.0, All-insert_by e es h k.1)
  ]

  pub All-order_by : (es : List Event) → All P es → All P (order_by sequence_of es)
  unfolding order_by
  All-order_by [] h = tt
  All-order_by (e ∷ es) h = All-insert_by e (order_by sequence_of es) h.0 (All-order_by es h.1)

  pub All-oldest_first : (m k : ℕ) (es : List Event) → All P es → All P (oldest_first m k es)
  unfolding oldest_first
  All-oldest_first m k [] h = tt
  All-oldest_first m k (e ∷ es) h = elim (Bool-cases (leb (k - event_bytes e) m)) [
    | inl q ↦ rw (q, oldest_first) (h.0, tt)
    | inr q ↦ rw (q, oldest_first) (h.0, All-oldest_first m (k - event_bytes e) es h.1)
  ]

  pub All-keep :
      (p : Event → Bool) → ((e : Event) → p e ≡ true → P e) → (es : List Event) → All P (keep p es)
  All-keep p f [] = tt
  All-keep p f (e ∷ es) = elim (Bool-cases (p e)) [
    | inl h ↦ rw (keep-true p e es h) (f e h, All-keep p f es)
    | inr h ↦ rw (keep-false p e es h) (All-keep p f es)
  ]

  pub All-keep_of : (p : Event → Bool) (es : List Event) → All P es → All P (keep p es)
  All-keep_of p [] h = tt
  All-keep_of p (e ∷ es) h = elim (Bool-cases (p e)) [
    | inl q ↦ rw (keep-true p e es q) (h.0, All-keep_of p es h.1)
    | inr q ↦ rw (keep-false p e es q) (All-keep_of p es h.1)
  ]

-- Each chosen row is at or below the cursor.
pub victims-delivered :
    (cursor : ℤ) (older_than : Option ℤ) (max_bytes : Option ℕ) (es : List Event)
    → All (λ v. is_delivered cursor v ≡ true) (victims cursor older_than max_bytes es)
unfolding victims over_budget
victims-delivered cursor older_than max_bytes es =
    All-append (λ v. is_delivered cursor v ≡ true) (keep (by_age cursor older_than) es) _
      (All-keep (λ v. is_delivered cursor v ≡ true) (by_age cursor older_than) (λ e h. ground arith)
        es)
      (rest max_bytes (total_bytes es - total_bytes (keep (by_age cursor older_than) es)))
  where
    rest :
        (m : Option ℕ) (k : ℕ)
        → All (λ v. is_delivered cursor v ≡ true) (over_budget m cursor older_than k es)
    rest none k = tt
    rest (some m) k = elim (Bool-cases (ltb m k)) [
      | inl q ↦
          rw (q, over_budget)
            (All-oldest_first _ m k _ (
              All-order_by _ _ (
                All-keep (λ v. is_delivered cursor v ≡ true) (by_size cursor older_than)
                  (λ e h. ground arith) es)))
      | inr q ↦ rw (q, over_budget) tt
    ]

pub is_in-delivered :
    (cursor : ℤ) (vs : List Event) (e : Event)
    → All (λ v. is_delivered cursor v ≡ true) vs
    → is_in vs e ≡ true
    → is_delivered cursor e ≡ true
unfolding is_in
is_in-delivered cursor [] e h q = cc
is_in-delivered cursor (v ∷ vs) e h q =
    elim (Bool-cases (eqb v.producer_sequence e.producer_sequence)) [
      | inl f ↦
          let same : v.producer_sequence ≡ e.producer_sequence = ground arith in
          subst (λ n. le_int (pos n) cursor ≡ true) same h.0
      | inr f ↦
          is_in-delivered cursor vs e h.1
            (subst (λ b. (elim b as (λ _. Bool) [ true ↦ true | false ↦ is_in vs e ]) ≡ true) f q)
    ]

-- A selection and the rest have the rows of the table.
pub count-split :
    (p : Event → Bool) (s : ℕ) (es : List Event)
    → count_events s (keep p es) + count_events s (keep (λ e. not (p e)) es) ≡ count_events s es
unfolding count_events
count-split p s [] = refl
count-split p s (e ∷ es) = ground (arith, count-split p s es)

pub total-split :
    (p : Event → Bool) (es : List Event)
    → total_bytes (keep p es) + total_bytes (keep (λ e. not (p e)) es) ≡ total_bytes es
unfolding total_bytes
total-split p [] = refl
total-split p (e ∷ es) = ground (arith, total-split p es)

count_tombstones-snoc :
    (s : ℕ) (ts : List Tombstone) (t : Tombstone)
    → count_tombstones s (ts ++ t ∷ [])
      ≡ count_tombstones s ts + (if eqb t.producer_sequence s then 1 else 0)
unfolding count_tombstones
count_tombstones-snoc s [] t = omega arith
count_tombstones-snoc s (u ∷ ts) t = omega (arith, count_tombstones-snoc s ts t)

-- The tombstone of an event has its identity.
pub record IsTombstoneOf (e : Event) (t : Tombstone) : Type 0 where
  pub sequence : t.producer_sequence ≡ e.producer_sequence
  pub dedup : t.dedup_key ≡ e.dedup_key

pub tombstone_of-IsTombstoneOf :
    (e : Event) {t : Tombstone} → tombstone_of e ≡ ok t → IsTombstoneOf e t
unfolding tombstone_of
tombstone_of-IsTombstoneOf e h =
    let (summary, _, q) = >>=-eq-ok (retention_summary e.envelope e.producer_sequence) _ h in
    record { sequence = cc; dedup = cc }

pub store_tombstones-count :
    (s : ℕ) (es : List Event) (ts : List Tombstone) {ts' : List Tombstone}
    → store_tombstones es ts ≡ ok ts'
    → count_tombstones s ts' ≡ count_events s es + count_tombstones s ts
unfolding store_tombstones count_events
store_tombstones-count s [] ts {ts'} h =
    let same : count_tombstones s ts' ≡ count_tombstones s ts =
      ap (count_tombstones s) (sym (ok-injective h)) in
    omega (arith, same)
store_tombstones-count s (e ∷ es) ts h =
    let (t, q, h₁) = >>=-eq-ok (tombstone_of e) _ h in
    let (u, _, h₂) = >>=-eq-ok (require (not (any (clashes t) ts)) integrity_error) _ h₁ in
    let same = tombstone_of-IsTombstoneOf e q in
    let step : ◌≡◌ {A = ℕ} (if eqb t.producer_sequence s then 1 else 0)
        (if eqb e.producer_sequence s then 1 else 0) =
      ap (λ n. if eqb n s then 1 else 0) same.sequence in
    omega (arith, store_tombstones-count s es (ts ++ t ∷ []) h₂, count_tombstones-snoc s ts t, step)
