-- ===== src/Outbox/Prune/Budget.antt =====
-- A prune with a byte budget meets it, or nothing delivered is left to remove.
use hermes_flight_recorder.Base.{
  ltb, leb, Bool-cases, All, keep, All-map, All-apply, keep-true, keep-false, ℤ, ℕ, ◌+◌, ◌-◌, ◌≤◌,
  ◌≡◌, refl, sym, ap, ◌∙◌, subst, ◌⊎◌, inl, inr, Bool, true, false, Option, some, List, [], ◌∷◌,
  ◌++◌, append-nil, arith,
}
use hermes_flight_recorder.Outbox.State.{Event, Outbox, order_by, event_bytes}
use hermes_flight_recorder.Outbox.Order.{Above, Above-keep, order_by-Above}
use hermes_flight_recorder.Result.{Result, ok, Result-cases, >>=-eq-ok, ok-injective}
use hermes_flight_recorder.Outbox.Sound.{IsSound}
use hermes_flight_recorder.Outbox.Prune.{
  is_delivered, is_expired, by_age, by_size, victims, over_budget, oldest_first, total_bytes, is_in,
  is_kept, sequence_of, remove, prune_delivered, settle, check_arguments, summary_of,
  store_tombstones, Storage, PruneResult,
}
use hermes_flight_recorder.Outbox.Prune.Rows.{total-split}

-- The loop takes rows from the front, and stops early only when what remains fits.
oldest_first-prefix :
    (m k : ℕ) (es : List Event)
    → (rest : List Event) × (es ≡ oldest_first m k es ++ rest)
      × ((rest ≡ []) ⊎ (k ≤ m + total_bytes (oldest_first m k es)))
unfolding oldest_first total_bytes
oldest_first-prefix m k [] = ([], refl, inl refl)
oldest_first-prefix m k (e ∷ es) = elim (Bool-cases (leb (k - event_bytes e) m)) [
  | inl q ↦ (es, rw (q, oldest_first) refl, inr (rw (q, oldest_first) (ground arith)))
  | inr q ↦
      let (rest, split, stop) = oldest_first-prefix m (k - event_bytes e) es in
      (
        rest,
        rw (q, oldest_first) (ap (λ xs. e ∷ xs) split),
        elim stop [
          | inl none_left ↦ inl none_left
          | inr fits ↦ inr (rw (q, oldest_first) (ground (arith, fits)))
        ],
      )
]

is_in_self : (xs ys : List Event) → All (λ v. is_in (xs ++ ys) v ≡ true) xs
unfolding is_in
is_in_self [] ys = tt
is_in_self (x ∷ xs) ys = (ground arith, All-map _ _ (λ v h. ground arith) xs (is_in_self xs ys))

is_in-right : (xs ys : List Event) (e : Event) → is_in ys e ≡ true → is_in (xs ++ ys) e ≡ true
unfolding is_in
is_in-right [] ys e h = h
is_in-right (x ∷ xs) ys e h = ground (arith, is_in-right xs ys e h)

total-keep_all :
    (p : Event → Bool) (xs : List Event)
    → All (λ v. p v ≡ true) xs
    → total_bytes (keep p xs) ≡ total_bytes xs
unfolding total_bytes
total-keep_all p [] h = refl
total-keep_all p (x ∷ xs) h = let t = h.0 in ground (arith, total-keep_all p xs h.1)

total-keep-append :
    (p : Event → Bool) (xs ys : List Event)
    → total_bytes (keep p xs) ≤ total_bytes (keep p (xs ++ ys))
unfolding total_bytes
total-keep-append p [] ys = omega arith
total-keep-append p (x ∷ xs) ys = ground (arith, total-keep-append p xs ys)

-- Two disjoint selections of a table, together, are no more than the table.
total-disjoint :
    (p a b : Event → Bool)
    → ((e : Event) → a e ≡ true → b e ≡ false)
    → (es : List Event)
    → total_bytes (keep p (keep a es)) + total_bytes (keep p (keep b es)) ≤ total_bytes (keep p es)
unfolding total_bytes
total-disjoint p a b d [] = omega arith
total-disjoint p a b d (e ∷ es) =
    let apart = d e in ground (arith, apart, total-disjoint p a b d es)

is_in-keep :
    (a : Event → Bool) (es : List Event) → All (λ e. a e ≡ true → is_in (keep a es) e ≡ true) es
unfolding is_in
is_in-keep a [] = tt
is_in-keep a (e ∷ es) = elim (Bool-cases (a e)) [
  | inl q ↦ rw (keep-true a e es q) (
    (λ h. ground arith),
    All-map _ _ (λ f h k. let g = h k in ground (arith, g)) es (is_in-keep a es),
  )
  | inr q ↦
      subst (λ ks. All (λ f. a f ≡ true → is_in ks f ≡ true) (e ∷ es)) (sym (keep-false a e es q))
        ((λ h. absurd cc), is_in-keep a es)
]

is_in-left : (xs ys : List Event) (e : Event) → is_in xs e ≡ true → is_in (xs ++ ys) e ≡ true
unfolding is_in
is_in-left [] ys e h = absurd cc
is_in-left (x ∷ xs) ys e h = ground (arith, is_in-left xs ys e)

kept-undelivered :
    (cursor : ℤ) (vs es : List Event)
    → All (λ e. is_delivered cursor e ≡ true → is_in vs e ≡ true) es
    → All (λ e. is_delivered cursor e ≡ false) (keep (is_kept vs) es)
kept-undelivered cursor vs [] h = tt
kept-undelivered cursor vs (e ∷ es) h = elim (Bool-cases (is_in vs e)) [
  | inl q ↦ rw (keep-false (is_kept vs) e es (rw q refl)) (kept-undelivered cursor vs es h.1)
  | inr q ↦
      let out = h.0 in
      rw (keep-true (is_kept vs) e es (rw q refl))
        (ground (arith, out, q), kept-undelivered cursor vs es h.1)
]

-- The budget is met, or each row that is left is above the cursor.
abbrev pub IsWithin : ℕ → ℤ → List Event → Type 0
IsWithin m cursor es = (total_bytes es ≤ m) ⊎ All (λ e. is_delivered cursor e ≡ false) es

module _ (cursor : ℤ) (older_than : Option ℤ) (m : ℕ) (es : List Event) where
  -- What is kept, when a part `sel` of the size candidates is chosen besides the expired rows.
  kept_total :
      (sel rest : List Event)
      → keep (by_size cursor older_than) es ≡ sel ++ rest
      → total_bytes (keep (is_kept (keep (by_age cursor older_than) es ++ sel)) es)
          + (total_bytes (keep (by_age cursor older_than) es) + total_bytes sel)
        ≤ total_bytes es
  kept_total sel rest split =
      let expired = keep (by_age cursor older_than) es in
      let vs = expired ++ sel in
      let whole = total-split (is_in vs) es in
      let apart =
        total-disjoint (is_in vs) (by_age cursor older_than) (by_size cursor older_than)
          (λ e h. ground arith) es in
      let all_expired = total-keep_all (is_in vs) expired (is_in_self expired sel) in
      let all_sel =
        total-keep_all (is_in vs) sel
          (All-map _ _ (λ e h. is_in-right expired sel e h) sel (is_in-own sel)) in
      let part = total-keep-append (is_in vs) sel rest in
      let same : total_bytes (keep (is_in vs) (keep (by_size cursor older_than) es))
          ≡ total_bytes (keep (is_in vs) (sel ++ rest)) =
        ap (λ xs. total_bytes (keep (is_in vs) xs)) split in
      omega (arith, whole, apart, all_expired, all_sel, part, same)
    where
      is_in-own : (xs : List Event) → All (λ v. is_in xs v ≡ true) xs
      is_in-own xs =
          subst (λ ys. All (λ v. is_in ys v ≡ true) xs) (append-nil xs) (is_in_self xs [])

  all_delivered :
      (sel : List Event)
      → keep (by_size cursor older_than) es ≡ sel
      → All
          (λ e.
            is_delivered cursor e ≡ true
            → is_in (keep (by_age cursor older_than) es ++ sel) e ≡ true)
          es
  all_delivered sel split =
      let expired = keep (by_age cursor older_than) es in
      All-apply _ _ es (is_in-keep (by_size cursor older_than) es) (
        All-map _ _
          (λ e old young d. elim (Bool-cases (is_expired older_than e)) [
            | inl q ↦ is_in-left expired sel e (old (ground arith))
            | inr q ↦
                is_in-right expired sel e
                  (subst (λ xs. is_in xs e ≡ true) split (young (ground arith)))
          ])
          es (is_in-keep (by_age cursor older_than) es))

  chosen :
      Above 0 es
      → ltb m (total_bytes es - total_bytes (keep (by_age cursor older_than) es)) ≡ true
      → victims cursor older_than (some m) es
        ≡ keep (by_age cursor older_than) es
          ++ oldest_first m
              (total_bytes es - total_bytes (keep (by_age cursor older_than) es))
              (keep (by_size cursor older_than) es)
  unfolding victims over_budget
  chosen above q =
      let expired = keep (by_age cursor older_than) es in
      rw (q, over_budget, victims)
        (ap (λ xs. expired ++ oldest_first m (total_bytes es - total_bytes expired) xs)
          (order_by-Above 0 (keep (by_size cursor older_than) es)
            (Above-keep (by_size cursor older_than) 0 es above)))

  victims-IsWithin :
      Above 0 es → IsWithin m cursor (keep (is_kept (victims cursor older_than (some m) es)) es)
  unfolding victims over_budget
  victims-IsWithin above =
      let expired = keep (by_age cursor older_than) es in
      let candidates = keep (by_size cursor older_than) es in
      let k = total_bytes es - total_bytes expired in
      elim (Bool-cases (ltb m k)) [
        | inr q ↦
            rw (q, over_budget, victims)
              (inl (let bound = kept_total [] candidates refl in ground (arith, bound)))
        | inl q ↦
            let (rest, split, stop) = oldest_first-prefix m k candidates in
            let sel = oldest_first m k candidates in
            subst (λ vs. IsWithin m cursor (keep (is_kept vs) es)) (sym (chosen above q))
              (elim stop [
                | inl none_left ↦ inr (
                    kept-undelivered cursor (expired ++ sel) es
                      (all_delivered sel (split ∙ ap (λ r. sel ++ r) none_left ∙ append-nil sel)))
                | inr fits ↦
                    inl (let bound = kept_total sel rest split in omega (arith, bound, fits))
              ])
      ]

remove-events :
    (vs : List Event) (o : Outbox) {o' : Outbox}
    → remove vs o ≡ ok o'
    → o'.events ≡ keep (is_kept vs) o.events
unfolding remove is_in
remove-events [] o {o'} h =
    ap (λ (x : Outbox). x.events) (sym (ok-injective h)) ∙ sym (keep-everything o.events)
  where
    keep-everything : (es : List Event) → keep (λ _. true) es ≡ es
    keep-everything [] = refl
    keep-everything (e ∷ es) = ap (λ xs. e ∷ xs) (keep-everything es)
remove-events (v ∷ vs) o {o'} h =
    let (ts, q, k) =
      >>=-eq-ok
        (store_tombstones (order_by sequence_of (keep (is_in (v ∷ vs)) o.events)) o.tombstones) _
        h in
    ap (λ (x : Outbox). x.events) (sym (ok-injective k))

-- A prune of a sound outbox that returns under a byte budget, whatever the age policy, has met
-- the budget, or has left no event at or below the delivery cursor.
pub prune_delivered-IsWithin :
    (storage : Storage) (cursor : ℤ) (older_than : Option ℤ) (m : ℕ) (vacuum : Bool) (o : Outbox)
    {result : PruneResult} {o' : Outbox}
    → IsSound o
    → prune_delivered storage cursor older_than (some m) vacuum o ≡ (ok result, o')
    → IsWithin m cursor o'.events
unfolding prune_delivered settle
prune_delivered-IsWithin storage cursor older_than m vacuum o {result} {o'} s h =
    let vs = victims cursor older_than (some m) o.events in
    elim (Result-cases (check_arguments cursor (some m))) [
      | inr (e, f) ↦ absurd (cc (rw (f, prune_delivered) at h))
      | inl (u, f) ↦ elim (Result-cases (remove vs o)) [
        | inr (e, g) ↦ absurd (cc (rw (f, prune_delivered, g, settle) at h))
        | inl (o₁, g) ↦
            let q : Path (Result PruneResult × Outbox)
                (ok (summary_of cursor vacuum storage vs o), o₁) (ok result, o') =
              rw (f, prune_delivered, g, settle) at h in
            let same : o₁ ≡ o' = ap (λ (x : Result PruneResult × Outbox). x.1) q in
            subst (λ (x : Outbox). IsWithin m cursor x.events) same
              (subst (IsWithin m cursor) (sym (remove-events vs o g))
                (victims-IsWithin cursor older_than m o.events s.ordered))
      ]
    ]
