-- ===== src/Knowledge/Keyed.antt =====
-- The numbers of an artifact as ORDER BY seq DESC lists them (prune_knowledge_versions in
-- hermes_flight_recorder/collector/outbox_knowledge.py).
use hermes_flight_recorder.Base.{
  leb, eqb, Bool-cases, drop, All, All-map, ℕ, zero, suc, ◌≤◌, ◌<◌, String, ◌≡◌, refl, sym, ◌∙◌,
  subst, inl, inr, Bool, true, false, ◌&&◌, ◌||◌, List, [], ◌∷◌, arith, eq_iff,
}
use hermes_flight_recorder.Knowledge.{
  KnowledgeVersion, is_of, latest_of, has_version, insert_desc, seqs_desc,
}
use hermes_flight_recorder.Knowledge.Versions.{UpTo, latest_of-UpTo, top}

abbrev has : ℕ → List ℕ → Bool
has n [] = false
has n (m ∷ ms) = eqb n m || has n ms

-- PRIMARY KEY (artifact_id, seq)
abbrev pub IsKeyed : List KnowledgeVersion → Type 0
IsKeyed [] = Unit
IsKeyed (v ∷ vs) = (has_version v.artifact_id v.seq vs ≡ false) × IsKeyed vs

abbrev Descending : List ℕ → Type 0
Descending [] = Unit
Descending (n ∷ ns) = All (λ m. m < n) ns × Descending ns

has-insert_desc : (n m : ℕ) (ms : List ℕ) → has n (insert_desc m ms) ≡ eqb n m || has n ms
unfolding insert_desc
has-insert_desc n m [] = refl
has-insert_desc n m (k ∷ ks) = ground (arith, has-insert_desc n m ks)

All-insert_desc : (P : ℕ → Type 0) (n : ℕ) (ms : List ℕ) → P n → All P ms → All P (insert_desc n ms)
unfolding insert_desc
All-insert_desc P n [] h a = (h, tt)
All-insert_desc P n (m ∷ ms) h a = elim (Bool-cases (leb m n)) [
  | inl q ↦ rw (q, insert_desc) (h, a)
  | inr q ↦ rw (q, insert_desc) (a.0, All-insert_desc P n ms h a.1)
]

Descending-insert_desc :
    (n : ℕ) (ms : List ℕ) → has n ms ≡ false → Descending ms → Descending (insert_desc n ms)
unfolding insert_desc
Descending-insert_desc n [] h d = (tt, tt)
Descending-insert_desc n (m ∷ ms) h d =
    let apart : eqb n m ≡ false = ground arith in
    let rest : has n ms ≡ false = ground arith in
    elim (Bool-cases (leb m n)) [
      | inl q ↦
          let low : m < n = ground arith in
          rw (q, insert_desc)
            ((low, All-map (λ k. k < m) (λ k. k < n) (λ k e. omega (arith, e, low)) ms d.0), d)
      | inr q ↦
          let high : n < m = ground arith in
          rw (q, insert_desc)
            (All-insert_desc (λ k. k < m) n ms high d.0, Descending-insert_desc n ms rest d.1)
    ]

has-seqs_desc :
    (id : String) (n : ℕ) (vs : List KnowledgeVersion)
    → has n (seqs_desc id vs) ≡ has_version id n vs
unfolding seqs_desc has_version
has-seqs_desc id n [] = refl
has-seqs_desc id n (v ∷ vs) =
    let rest = has-seqs_desc id n vs in
    elim (Bool-cases (is_of id v)) [
      | inl q ↦
          rw (q, seqs_desc, has_version)
            (has-insert_desc n v.seq (seqs_desc id vs) ∙ rw rest (swap n v.seq _))
      | inr q ↦ rw (q, seqs_desc, has_version) rest
    ]
  where
    swap : (a b : ℕ) (c : Bool) → eqb a b || c ≡ eqb b a || c
    swap a b c = ground arith

seqs_desc-Descending :
    (id : String) (vs : List KnowledgeVersion) → IsKeyed vs → Descending (seqs_desc id vs)
unfolding seqs_desc
seqs_desc-Descending id [] k = tt
seqs_desc-Descending id (v ∷ vs) k = elim (Bool-cases (is_of id v)) [
  | inl q ↦
      let same = (eq_iff v.artifact_id id).0 q in
      rw (q, seqs_desc)
        (Descending-insert_desc v.seq (seqs_desc id vs)
          (has-seqs_desc id v.seq vs ∙ subst (λ a. has_version a v.seq vs ≡ false) same k.0)
          (seqs_desc-Descending id vs k.1))
  | inr q ↦ rw (q, seqs_desc) (seqs_desc-Descending id vs k.1)
]

-- What is dropped is below the highest.
drop_below : (k n : ℕ) (ns : List ℕ) → All (λ m. m < n) ns → All (λ m. m < n) (drop k ns)
drop_below zero n ns h = h
drop_below (suc k) n [] h = tt
drop_below (suc k) n (m ∷ ns) h = drop_below k n ns h.1

has_version-UpTo :
    (id : String) (m n : ℕ) (vs : List KnowledgeVersion)
    → UpTo id n vs
    → has_version id m vs ≡ true
    → m ≤ n
unfolding has_version
has_version-UpTo id m n [] u h = absurd (cc h)
has_version-UpTo id m n (v ∷ vs) u h = elim (Bool-cases (is_of id v && eqb v.seq m)) [
  | inl q ↦ let mine : is_of id v ≡ true = ground arith in let low = u.0 mine in ground (arith, low)
  | inr q ↦ has_version-UpTo id m n vs u.1 (rw (q, has_version) at h)
]

pub doomed_below :
    (id : String) (k : ℕ) (vs : List KnowledgeVersion)
    → IsKeyed vs
    → All (λ m. m < top (latest_of id vs)) (drop (suc k) (seqs_desc id vs))
doomed_below id k vs keyed = below (seqs_desc id vs) refl (seqs_desc-Descending id vs keyed)
  where
    below :
        (ns : List ℕ)
        → seqs_desc id vs ≡ ns
        → Descending ns
        → All (λ m. m < top (latest_of id vs)) (drop (suc k) ns)
    below [] q d = tt
    below (n ∷ ns) q d =
        let stored : has_version id n vs ≡ true =
          sym (has-seqs_desc id n vs) ∙ rw q (ground arith) in
        let high = has_version-UpTo id n (top (latest_of id vs)) vs (latest_of-UpTo id vs) stored in
        All-map (λ m. m < n) (λ m. m < top (latest_of id vs)) (λ m e. omega (arith, e, high))
          (drop k ns) (drop_below k n ns d.0)
