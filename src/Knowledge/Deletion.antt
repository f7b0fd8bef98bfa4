-- ===== src/Knowledge/Deletion.antt =====
-- What deleting versions leaves of the latest one (prune_knowledge_versions in
-- hermes_flight_recorder/collector/outbox_knowledge.py).
use hermes_flight_recorder.Base.{
  ltb, leb, eqb, Bool-cases, All, keep-true, keep-false, ℕ, ◌≤◌, ◌<◌, String, ◌≡◌, refl, sym, ap,
  ◌∙◌, subst, ◌⊎◌, inl, inr, Bool, true, false, ◌&&◌, not, Option, none, some, List, [], ◌∷◌, arith,
  ◌==◌, eq_iff,
}
use hermes_flight_recorder.Knowledge.{
  KnowledgeVersion, later, is_of, latest_of, delete_version, delete_versions,
}
use hermes_flight_recorder.Knowledge.Versions.{UpTo, UpTo-weaken, latest_of-UpTo, top}

later_low : (v : KnowledgeVersion) (o : Option KnowledgeVersion) → top o ≤ v.seq → later v o ≡ v
unfolding later top
later_low v none h = refl
later_low v (some w) h = let q : leb w.seq v.seq ≡ true = ground (arith, h) in rw q refl

later_high :
    (v : KnowledgeVersion) (o : Option KnowledgeVersion) → v.seq < top o → some (later v o) ≡ o
unfolding later top
later_high v none h = absurd (omega (arith, h))
later_high v (some w) h = let q : leb w.seq v.seq ≡ false = ground (arith, h) in rw q refl

top-later :
    (v : KnowledgeVersion) (o : Option KnowledgeVersion) (m : ℕ)
    → m < (later v o).seq
    → (m < v.seq) ⊎ (m < top o)
unfolding later top
top-later v none m h = inl h
top-later v (some w) m h = elim (Bool-cases (leb w.seq v.seq)) [
  | inl q ↦ inl (rw q at h)
  | inr q ↦ inr (rw q at h)
]

top-UpTo :
    (id : String) (n : ℕ) (vs : List KnowledgeVersion) → UpTo id n vs → top (latest_of id vs) ≤ n
unfolding latest_of top
top-UpTo id n [] u = omega arith
top-UpTo id n (v ∷ vs) u =
    let rest = top-UpTo id n vs u.1 in
    elim (Bool-cases (is_of id v)) [
      | inl q ↦ let here = u.0 q in rw (q, latest_of) (bound v (latest_of id vs) here rest)
      | inr q ↦ rw (q, latest_of) rest
    ]
  where
    bound :
        (v : KnowledgeVersion) (o : Option KnowledgeVersion)
        → v.seq ≤ n
        → top o ≤ n
        → (later v o).seq ≤ n
    bound v none h k = h
    bound v (some w) h k = elim (Bool-cases (leb w.seq v.seq)) [ inl q ↦ rw q h | inr q ↦ rw q k ]

UpTo-delete_version :
    (id j : String) (n m : ℕ) (vs : List KnowledgeVersion)
    → UpTo j n vs
    → UpTo j n (delete_version id vs m)
unfolding delete_version
UpTo-delete_version id j n m [] u = tt
UpTo-delete_version id j n m (v ∷ vs) u =
    let P : KnowledgeVersion → Bool = λ v. not (is_of id v && eqb v.seq m) in
    elim (Bool-cases (P v)) [
      | inl q ↦ rw (keep-true P v vs q) (u.0, UpTo-delete_version id j n m vs u.1)
      | inr q ↦ rw (keep-false P v vs q) (UpTo-delete_version id j n m vs u.1)
    ]

-- Deleting a number below the highest of its artifact leaves the latest version.
latest_of-delete_version :
    (id : String) (m : ℕ) (vs : List KnowledgeVersion)
    → m < top (latest_of id vs)
    → latest_of id (delete_version id vs m) ≡ latest_of id vs
unfolding delete_version latest_of top
latest_of-delete_version id m [] h = refl
latest_of-delete_version id m (v ∷ vs) h =
    let P : KnowledgeVersion → Bool = λ v. not (is_of id v && eqb v.seq m) in
    let o = latest_of id vs in
    elim (Bool-cases (is_of id v)) [
      | inr q ↦
          let stays : P v ≡ true = rw q refl in
          rw (keep-true P v vs stays, q, latest_of)
            (latest_of-delete_version id m vs (rw (q, latest_of) at h))
      | inl q ↦
          let high : m < (later v o).seq = rw (q, latest_of) at h in
          elim (Bool-cases (eqb v.seq m)) [
            | inl e ↦
                let gone : P v ≡ false = rw (q, e) refl in
                let above : v.seq < top o = elim (top-later v o m high) [
                  | inl k ↦ absurd (ground arith)
                  | inr k ↦ ground arith
                ] in
                rw (keep-false P v vs gone, q, latest_of)
                  (latest_of-delete_version id m vs (ground arith) ∙ sym (later_high v o above))
            | inr e ↦
                let stays : P v ≡ true = rw (q, e) refl in
                rw (keep-true P v vs stays, q, latest_of)
                  (elim (Bool-cases (ltb m (top o))) [
                    | inl k ↦
                        ap (λ x. some (later v x)) (latest_of-delete_version id m vs (ground arith))
                    | inr k ↦
                        let here : m < v.seq = elim (top-later v o m high) [
                          | inl l ↦ l
                          | inr l ↦ absurd (ground arith)
                        ] in
                        let low : top o ≤ v.seq = ground arith in
                        let after : top (latest_of id (delete_version id vs m)) ≤ v.seq =
                          top-UpTo id v.seq (delete_version id vs m) (
                            UpTo-delete_version id id v.seq m vs
                              (UpTo-weaken id (top o) v.seq vs low (latest_of-UpTo id vs))) in
                        ap some (later_low v _ after ∙ sym (later_low v o low))
                  ])
          ]
    ]

latest_of_other :
    (id j : String) (m : ℕ) (vs : List KnowledgeVersion)
    → (id == j) ≡ false
    → latest_of j (delete_version id vs m) ≡ latest_of j vs
unfolding delete_version latest_of
latest_of_other id j m [] h = refl
latest_of_other id j m (v ∷ vs) h =
    let P : KnowledgeVersion → Bool = λ v. not (is_of id v && eqb v.seq m) in
    let rest = latest_of_other id j m vs h in
    elim (Bool-cases (P v)) [
      | inl q ↦ rw (keep-true P v vs q, latest_of, rest) refl
      | inr q ↦
          let mine : is_of id v ≡ true = ground arith in
          let same = (eq_iff v.artifact_id id).0 mine in
          let other : is_of j v ≡ false = ap (λ a. a == j) same ∙ h in
          rw (keep-false P v vs q, other, latest_of) rest
    ]

pub latest_of-delete_versions :
    (id : String) (ms : List ℕ) (vs : List KnowledgeVersion)
    → All (λ m. m < top (latest_of id vs)) ms
    → latest_of id (delete_versions id ms vs) ≡ latest_of id vs
unfolding delete_versions
latest_of-delete_versions id [] vs h = refl
latest_of-delete_versions id (m ∷ ms) vs h =
    let first = latest_of-delete_version id m vs h.0 in
    latest_of-delete_versions id ms (delete_version id vs m)
      (subst (λ o. All (λ m. m < top o) ms) (sym first) h.1)
    ∙ first

pub delete_versions_others :
    (id j : String) (ms : List ℕ) (vs : List KnowledgeVersion)
    → (id == j) ≡ false
    → latest_of j (delete_versions id ms vs) ≡ latest_of j vs
unfolding delete_versions
delete_versions_others id j [] vs h = refl
delete_versions_others id j (m ∷ ms) vs h =
    delete_versions_others id j ms (delete_version id vs m) h ∙ latest_of_other id j m vs h
