-- ===== src/Sync/Deliver/Memory/Up.antt =====
-- The in-memory sink answers each batch of numbered records with a fitting acknowledgement.
use hermes_flight_recorder.Base.{
  Bool-cases, length, ℤ, pos, ◌+ℤ◌, ◌≤ℤ◌, le_int, eq_int, max_int, ℕ, ◌+◌, ◌≡◌, refl, inl, inr,
  true, some, List, [], ◌∷◌, ◌++◌, arith,
}
use hermes_flight_recorder.Value.{Fields, find, as_integer}
use hermes_flight_recorder.Result.{ok, or_raise-eq-ok, key_error}
use hermes_flight_recorder.Sync.Deliver.{last_sequence, validate_ack}
use hermes_flight_recorder.Sync.Deliver.Reliable.{IsReliable}
use hermes_flight_recorder.Sync.Deliver.Memory.{
  Tally, send, accept, accept_all, accept_all_counts, accept-high_water, sequence_or_zero,
}

-- What the ledger's high water has reached, it keeps.
max_keeps : (c a b : ℤ) → c ≤ℤ a → c ≤ℤ max_int a b
max_keeps c a b h = elim (Bool-cases (le_int a b)) [
  | inl q ↦ rw q (ground (arith, h))
  | inr q ↦ rw q h
]

max_reaches : (a b : ℤ) → b ≤ℤ max_int a b
max_reaches a b = elim (Bool-cases (le_int a b)) [
  | inl q ↦ rw q (omega arith)
  | inr q ↦ rw q (ground arith)
]

accept_all-keeps :
    (c : ℤ) (rs : List Fields) (n : Tally)
    → c ≤ℤ n.memory.high_water
    → c ≤ℤ (accept_all rs n).memory.high_water
unfolding accept_all
accept_all-keeps c [] n h = h
accept_all-keeps c (r ∷ rs) n h =
    accept_all-keeps c rs (accept r n)
      (rw (accept-high_water r n) (max_keeps c n.memory.high_water (sequence_or_zero r) h))

sequence_or_zero-some :
    (r : Fields) (c : ℤ) → as_integer (find "producer_sequence" r) ≡ some c → sequence_or_zero r ≡ c
unfolding sequence_or_zero
sequence_or_zero-some r c q = rw (q, sequence_or_zero) refl

accept_all-reaches :
    (rs : List Fields) (n : Tally) (c : ℤ)
    → last_sequence rs ≡ ok c
    → c ≤ℤ (accept_all rs n).memory.high_water
unfolding accept_all last_sequence
accept_all-reaches [] n c q = absurd (cc q)
accept_all-reaches (r ∷ []) n c q =
    let here =
      sequence_or_zero-some r c
        (or_raise-eq-ok key_error (as_integer (find "producer_sequence" r)) q) in
    let high = accept-high_water r n in rw (high, here) (max_reaches n.memory.high_water c)
accept_all-reaches (r ∷ s ∷ rs) n c q = accept_all-reaches (s ∷ rs) (accept r n) c q

-- The in-memory sink is up.
pub send-IsReliable : IsReliable send
unfolding send validate_ack
send-IsReliable b m c q =
    let n : Tally = accept_all b.records (record {
      memory = record m { batches = m.batches ++ b ∷ [] };
      accepted = 0;
      duplicates = 0;
    }) in
    let counts : n.accepted + n.duplicates ≡ 0 + 0 + length b.records =
      accept_all_counts b.records _ in
    let all_counted : eq_int (pos n.accepted +ℤ pos n.duplicates) (pos (length b.records)) ≡ true =
      ground (arith, counts) in
    let reached : c ≤ℤ n.memory.high_water = accept_all-reaches b.records _ c q in
    let enough : le_int c n.memory.high_water ≡ true = ground (arith, reached) in
    let natural : (k : ℕ) → le_int (pos 0) (pos k) ≡ true = λ k. ground arith in
    (_, refl, rw (natural n.accepted, natural n.duplicates, all_counted, q, enough) refl)
