-- ===== src/Reconcile/Gaps/Missing.antt =====
-- The reported sequences are the missing ones.
use hermes_flight_recorder.Base.{
  ltb, eqb, Bool-cases, All, keep, keep-true, keep-false, ℕ, zero, suc, ◌+◌, ◌-◌, ◌≤◌, ◌<◌, ◌≡◌,
  refl, sym, ap, ◌∙◌, inl, inr, Bool, true, false, ◌&&◌, ◌||◌, not, List, [], ◌∷◌, ◌++◌, map,
  append-nil, arith,
}
use hermes_flight_recorder.Outbox.State.{Event, Tombstone, Outbox}
use hermes_flight_recorder.Reconcile.Gaps.{
  insert_distinct, order_distinct, is_between, all_sequences, stored_sequences, Gap, gap_at, range,
  gaps_within, gaps_between, sequence_gaps,
}

abbrev pub has : ℕ → List ℕ → Bool
has n [] = false
has n (m ∷ ms) = eqb n m || has n ms

abbrev pub Ascending : ℕ → List ℕ → Type 0
Ascending p [] = Unit
Ascending p (n ∷ ns) = (p < n) × Ascending n ns

has-insert_distinct : (n m : ℕ) (ms : List ℕ) → has n (insert_distinct m ms) ≡ eqb n m || has n ms
unfolding insert_distinct
has-insert_distinct n m [] = refl
has-insert_distinct n m (k ∷ ks) = ground (arith, has-insert_distinct n m ks)

pub has-order_distinct : (n : ℕ) (ms : List ℕ) → has n (order_distinct ms) ≡ has n ms
unfolding order_distinct
has-order_distinct n [] = refl
has-order_distinct n (m ∷ ms) =
    has-insert_distinct n m (order_distinct ms) ∙ ap (λ b. eqb n m || b) (has-order_distinct n ms)

Ascending-insert_distinct :
    (p n : ℕ) (ms : List ℕ) → p < n → Ascending p ms → Ascending p (insert_distinct n ms)
unfolding insert_distinct
Ascending-insert_distinct p n [] h a = (h, tt)
Ascending-insert_distinct p n (m ∷ ms) h a = elim (Bool-cases (ltb n m)) [
  | inl q ↦ rw (q, insert_distinct) (h, (ground arith, a.1))
  | inr q ↦ elim (Bool-cases (eqb n m)) [
    | inl e ↦ rw (q, e, insert_distinct) a
    | inr e ↦ rw (q, e, insert_distinct) (a.0, Ascending-insert_distinct m n ms (ground arith) a.1)
  ]
]

Ascending-order_distinct :
    (p : ℕ) (ms : List ℕ) → All (λ n. p < n) ms → Ascending p (order_distinct ms)
unfolding order_distinct
Ascending-order_distinct p [] h = tt
Ascending-order_distinct p (m ∷ ms) h =
    Ascending-insert_distinct p m (order_distinct ms) h.0 (Ascending-order_distinct p ms h.1)

All-kept :
    (P : ℕ → Type 0) (hw : ℕ) (ms : List ℕ)
    → ((n : ℕ) → is_between hw n ≡ true → P n)
    → All P (keep (is_between hw) ms)
All-kept P hw [] f = tt
All-kept P hw (m ∷ ms) f = elim (Bool-cases (is_between hw m)) [
  | inl q ↦ rw (keep-true (is_between hw) m ms q) (f m q, All-kept P hw ms f)
  | inr q ↦ rw (keep-false (is_between hw) m ms q) (All-kept P hw ms f)
]

All-insert_distinct :
    (P : ℕ → Type 0) (n : ℕ) (ms : List ℕ) → P n → All P ms → All P (insert_distinct n ms)
unfolding insert_distinct
All-insert_distinct P n [] h a = (h, tt)
All-insert_distinct P n (m ∷ ms) h a = elim (Bool-cases (ltb n m)) [
  | inl q ↦ rw (q, insert_distinct) (h, a)
  | inr q ↦ elim (Bool-cases (eqb n m)) [
    | inl e ↦ rw (q, e, insert_distinct) a
    | inr e ↦ rw (q, e, insert_distinct) (a.0, All-insert_distinct P n ms h a.1)
  ]
]

All-order_distinct : (P : ℕ → Type 0) (ms : List ℕ) → All P ms → All P (order_distinct ms)
unfolding order_distinct
All-order_distinct P [] h = tt
All-order_distinct P (m ∷ ms) h =
    All-insert_distinct P m (order_distinct ms) h.0 (All-order_distinct P ms h.1)

has-keep : (p : ℕ → Bool) (n : ℕ) (ms : List ℕ) → has n (keep p ms) ≡ has n ms && p n
has-keep p n [] = refl
has-keep p n (m ∷ ms) = elim (Bool-cases (p m)) [
  | inl q ↦ rw (keep-true p m ms q) (elim (Bool-cases (eqb n m)) [
    | inl e ↦ let same : n ≡ m = ground arith in rw (e, same, q) refl
    | inr e ↦ rw e (has-keep p n ms)
  ])
  | inr q ↦ rw (keep-false p m ms q) (elim (Bool-cases (eqb n m)) [
    | inl e ↦ let same : n ≡ m = ground arith in has-keep p n ms ∙ rw (e, same, q) (ground arith)
    | inr e ↦ rw e (has-keep p n ms)
  ])
]

has-below : (n p : ℕ) (ms : List ℕ) → n ≤ p → Ascending p ms → has n ms ≡ false
has-below n p [] h a = refl
has-below n p (m ∷ ms) h a =
    let later = has-below n m ms (omega (arith, a.0)) a.1 in
    let low = a.0 in ground (arith, later, low)

range-split : (start j k : ℕ) → range start (j + k) ≡ range start j ++ range (start + j) k
unfolding range
range-split start zero k =
    let count : 0 + k ≡ k = omega arith in
    let next : start ≡ start + 0 = omega arith in
    ap (λ (c : ℕ). range start c) count ∙ ap (λ (s : ℕ). range s k) next
range-split start (suc j) k =
    let count : suc j + k ≡ suc (j + k) = omega arith in
    ap (λ (i : ℕ). range start i) count
    ∙ ap (λ r. start ∷ r)
        (range-split (start + 1) j k
          ∙ ap (λ (s : ℕ). range (start + 1) j ++ range s k) (omega arith))

pub All-range :
    (P : ℕ → Type 0) (start count : ℕ)
    → ((n : ℕ) → start ≤ n → n < start + count → P n)
    → All P (range start count)
unfolding range
All-range P start zero f = tt
All-range P start (suc count) f = (
  f start (omega arith) (omega arith),
  All-range P (start + 1) count (λ n h k. f n (omega arith) (omega arith)),
)

keep-append : (p : ℕ → Bool) (ms ns : List ℕ) → keep p (ms ++ ns) ≡ keep p ms ++ keep p ns
keep-append p [] ns = refl
keep-append p (m ∷ ms) ns = elim (Bool-cases (p m)) [
  | inl q ↦
      rw (keep-true p m (ms ++ ns) q, keep-true p m ms q) (ap (λ r. m ∷ r) (keep-append p ms ns))
  | inr q ↦ rw (keep-false p m (ms ++ ns) q, keep-false p m ms q) (keep-append p ms ns)
]

pub keep-same : (p q : ℕ → Bool) (ms : List ℕ) → All (λ n. p n ≡ q n) ms → keep p ms ≡ keep q ms
keep-same p q [] h = refl
keep-same p q (m ∷ ms) h = elim (Bool-cases (p m)) [
  | inl e ↦
      rw (keep-true p m ms e, keep-true q m ms (sym h.0 ∙ e))
        (ap (λ r. m ∷ r) (keep-same p q ms h.1))
  | inr e ↦ rw (keep-false p m ms e, keep-false q m ms (sym h.0 ∙ e)) (keep-same p q ms h.1)
]

keep-whole : (p : ℕ → Bool) (ms : List ℕ) → All (λ n. p n ≡ true) ms → keep p ms ≡ ms
keep-whole p [] h = refl
keep-whole p (m ∷ ms) h = keep-true p m ms h.0 ∙ ap (λ r. m ∷ r) (keep-whole p ms h.1)

pub keep-none : (p : ℕ → Bool) (ms : List ℕ) → All (λ n. p n ≡ false) ms → keep p ms ≡ []
keep-none p [] h = refl
keep-none p (m ∷ ms) h = keep-false p m ms h.0 ∙ keep-none p ms h.1

missing_of : List Gap → List ℕ
missing_of gs = map (λ (g : Gap). g.missing_sequence) gs

missing_of-append : (gs hs : List Gap) → missing_of (gs ++ hs) ≡ missing_of gs ++ missing_of hs
unfolding missing_of
missing_of-append [] hs = refl
missing_of-append (g ∷ gs) hs = ap (λ r. g.missing_sequence ∷ r) (missing_of-append gs hs)

missing_of-gap_at : (p q : ℕ) (ns : List ℕ) → missing_of (map (gap_at p q) ns) ≡ ns
unfolding missing_of gap_at
missing_of-gap_at p q [] = refl
missing_of-gap_at p q (n ∷ ns) = ap (λ r. n ∷ r) (missing_of-gap_at p q ns)

-- The numbers in the range up to the first stored one are missing, and that one is not.
split-first :
    (p hw n : ℕ) (ns : List ℕ)
    → p < n
    → n ≤ hw
    → Ascending n ns
    → keep (λ k. not (has k (n ∷ ns))) (range (p + 1) (hw - p))
      ≡ range (p + 1) (n - (p + 1)) ++ keep (λ k. not (has k ns)) (range (n + 1) (hw - n))
unfolding range
split-first p hw n ns low high a =
    let P : ℕ → Bool = λ k. not (has k (n ∷ ns)) in
    let first = range (p + 1) (n - (p + 1)) in
    let count : hw - p ≡ n - (p + 1) + suc (hw - n) = omega arith in
    let next : p + 1 + (n - (p + 1)) ≡ n = omega arith in
    let whole : range (p + 1) (hw - p) ≡ first ++ n ∷ range (n + 1) (hw - n) =
      ap (λ (c : ℕ). range (p + 1) c) count
      ∙ range-split (p + 1) (n - (p + 1)) (suc (hw - n))
      ∙ ap (λ (s : ℕ). first ++ range s (suc (hw - n))) next in
    let before : keep P first ≡ first = keep-whole P first (
      All-range (λ k. P k ≡ true) (p + 1) (n - (p + 1))
        (λ k h l. let later = has-below k n ns (omega arith) a in ground (arith, later))) in
    let here : P n ≡ false = ground arith in
    let after : keep P (range (n + 1) (hw - n))
        ≡ keep (λ k. not (has k ns)) (range (n + 1) (hw - n)) =
      keep-same P (λ k. not (has k ns)) (range (n + 1) (hw - n))
        (All-range (λ k. P k ≡ not (has k ns)) (n + 1) (hw - n) (λ k h l. ground arith)) in
    ap (keep P) whole
    ∙ keep-append P first (n ∷ range (n + 1) (hw - n))
    ∙ rw (before, keep-false P n (range (n + 1) (hw - n)) here, after) refl

gaps_between-missing :
    (p hw : ℕ) (ns : List ℕ)
    → Ascending p ns
    → All (λ n. n ≤ hw) ns
    → p ≤ hw
    → missing_of (gaps_between p (ns ++ (hw + 1) ∷ []))
      ≡ keep (λ k. not (has k ns)) (range (p + 1) (hw - p))
unfolding gaps_between gaps_within missing_of
gaps_between-missing p hw [] a b h =
    missing_of-append (gaps_within p (hw + 1)) []
    ∙ append-nil (missing_of (gaps_within p (hw + 1)))
    ∙ missing_of-gap_at p (hw + 1) (range (p + 1) (hw + 1 - (p + 1)))
    ∙ ap (λ (c : ℕ). range (p + 1) c) (omega arith)
    ∙ sym (
        keep-whole (λ k. true) (range (p + 1) (hw - p))
          (All-range (λ k. true ≡ true) (p + 1) (hw - p) (λ k l m. refl)))
gaps_between-missing p hw (n ∷ ns) a b h =
    missing_of-append (gaps_within p n) (gaps_between n (ns ++ (hw + 1) ∷ []))
    ∙ rw
        (
          missing_of-gap_at p n (range (p + 1) (n - (p + 1))),
          gaps_between-missing n hw ns a.1 b.1 b.0,
        )
        refl
    ∙ sym (split-first p hw n ns a.0 b.0 a.1)

-- The outbox has an event with the sequence, or a tombstone.
abbrev pub is_stored : Outbox → ℕ → Bool
is_stored o n =
    has n (map (λ (e : Event). e.producer_sequence) o.events)
    || has n (map (λ (t : Tombstone). t.producer_sequence) o.tombstones)

has-append : (n : ℕ) (ms ns : List ℕ) → has n (ms ++ ns) ≡ has n ms || has n ns
has-append n [] ns = refl
has-append n (m ∷ ms) ns = ground (arith, has-append n ms ns)

has-all_sequences : (n : ℕ) (o : Outbox) → has n (all_sequences o) ≡ is_stored o n
unfolding all_sequences
has-all_sequences n o = has-append n (map (λ (e : Event). e.producer_sequence) o.events) _

-- Gap detection agrees with its definition: for any high water, the reported sequences are, in
-- increasing order and once each, the numbers from 1 to the high water for which the outbox has
-- neither an event nor a tombstone.
pub sequence_gaps-missing :
    (high_water : ℕ) (o : Outbox)
    → map (λ (g : Gap). g.missing_sequence) (sequence_gaps high_water o)
      ≡ keep (λ n. not (is_stored o n)) (range 1 high_water)
unfolding sequence_gaps stored_sequences missing_of
sequence_gaps-missing hw o =
    let seqs = all_sequences o in
    let kept = keep (is_between hw) seqs in
    let whole : hw - 0 ≡ hw = omega arith in
    gaps_between-missing 0 hw (order_distinct kept)
      (Ascending-order_distinct 0 kept (All-kept (λ n. 0 < n) hw seqs (λ n h. ground arith)))
      (All-order_distinct (λ n. n ≤ hw) kept (All-kept (λ n. n ≤ hw) hw seqs (λ n h. ground arith)))
      (omega arith)
    ∙ ap (λ (c : ℕ). keep (λ n. not (has n (order_distinct kept))) (range 1 c)) whole
    ∙ keep-same _ (λ n. not (is_stored o n)) (range 1 hw)
        (All-range _ 1 hw (λ n h k.
          let here : is_between hw n ≡ true = ground arith in
          ap not (
            has-order_distinct n kept
            ∙ has-keep (is_between hw) n seqs
            ∙ rw here (ground arith)
            ∙ has-all_sequences n o)))
