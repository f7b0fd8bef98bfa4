-- ===== src/Knowledge/Versions.antt =====
-- A version is appended for each change, and for nothing else.
use hermes_flight_recorder.Base.{
  leb, Bool-cases, Option-cases, All, All-map, ℕ, ◌+◌, ◌≤◌, ◌<◌, String, ◌≡◌, refl, sym, ap, subst,
  inl, inr, Bool, true, false, Option, none, some, List, [], ◌∷◌, ◌++◌, arith, eq_refl,
}
use hermes_flight_recorder.Result.{ok}
use hermes_flight_recorder.Knowledge.{
  ManifestEntry, SkippedFile, KnowledgeVersion, Knowledge, NewVersion, later, is_of, latest_of,
  latest_knowledge_version, same_skip, same_skips, same_flag, is_current, version_of, has_version,
  insert_version, append_knowledge_version,
}

-- No version of the artifact is above `n`.
abbrev pub UpTo : String → ℕ → List KnowledgeVersion → Type 0
UpTo id n vs = All (λ (v : KnowledgeVersion). is_of id v ≡ true → v.seq ≤ n) vs

pub UpTo-weaken :
    (id : String) (m n : ℕ) (vs : List KnowledgeVersion) → m ≤ n → UpTo id m vs → UpTo id n vs
UpTo-weaken id m n vs h u =
    All-map (λ (v : KnowledgeVersion). is_of id v ≡ true → v.seq ≤ m) _
      (λ v k e. omega (arith, h, k e)) vs u

unfoldable pub top : Option KnowledgeVersion → ℕ
top none = 0
top (some v) = v.seq

later-bounds :
    (v : KnowledgeVersion) (o : Option KnowledgeVersion)
    → (v.seq ≤ (later v o).seq) × (top o ≤ (later v o).seq)
unfolding later top
later-bounds v none = (omega arith, omega arith)
later-bounds v (some w) = elim (Bool-cases (leb w.seq v.seq)) [
  | inl e ↦ rw e (omega arith, ground arith)
  | inr e ↦ rw e (ground arith, omega arith)
]

-- The latest version is the highest of its artifact.
pub latest_of-UpTo : (id : String) (vs : List KnowledgeVersion) → UpTo id (top (latest_of id vs)) vs
unfolding latest_of top
latest_of-UpTo id [] = tt
latest_of-UpTo id (v ∷ vs) = elim (Bool-cases (is_of id v)) [
  | inl q ↦
      let (here, rest) = later-bounds v (latest_of id vs) in
      let same : latest_of id (v ∷ vs) ≡ some (later v (latest_of id vs)) =
        rw (q, latest_of) refl in
      subst (λ o. UpTo id (top o) (v ∷ vs)) (sym same)
        ((λ _. here), UpTo-weaken id (top (latest_of id vs)) _ vs rest (latest_of-UpTo id vs))
  | inr q ↦
      let same : latest_of id (v ∷ vs) ≡ latest_of id vs = rw (q, latest_of) refl in
      subst (λ o. UpTo id (top o) (v ∷ vs)) (sym same)
        ((λ e. absurd (cc (q, e))), latest_of-UpTo id vs)
]

has_version-above :
    (id : String) (n : ℕ) (vs : List KnowledgeVersion)
    → UpTo id n vs
    → has_version id (n + 1) vs ≡ false
unfolding has_version
has_version-above id n [] u = refl
has_version-above id n (v ∷ vs) u =
    let rest = has_version-above id n vs u.1 in
    elim (Bool-cases (is_of id v)) [
      | inl q ↦ let low = u.0 q in rw (q, has_version) (ground (arith, low, rest))
      | inr q ↦ rw (q, has_version) rest
    ]

later-last : (w v : KnowledgeVersion) → w.seq < v.seq → later w (some v) ≡ v
unfolding later
later-last w v h = let q : leb v.seq w.seq ≡ false = ground (arith, h) in rw q refl

latest_of-append :
    (id : String) (n : ℕ) (vs : List KnowledgeVersion) (v : KnowledgeVersion)
    → UpTo id n vs
    → is_of id v ≡ true
    → n < v.seq
    → latest_of id (vs ++ v ∷ []) ≡ some v
unfolding latest_of later
latest_of-append id n [] v u q h = rw q refl
latest_of-append id n (w ∷ vs) v u q h =
    let rest = latest_of-append id n vs v u.1 q h in
    elim (Bool-cases (is_of id w)) [
      | inl e ↦
          let low = u.0 e in
          rw (e, latest_of, rest) (ap some (later-last w v (omega (arith, low, h))))
      | inr e ↦ rw (e, latest_of) rest
    ]

same_skips_self : (xs : List SkippedFile) → same_skips xs xs ≡ true
unfolding same_skips same_skip
same_skips_self [] = refl
same_skips_self (x ∷ xs) = ground (arith, eq_refl x.path, eq_refl x.reason, same_skips_self xs)

same_flag_self : (b : Bool) → same_flag b b ≡ true
same_flag_self true = refl
same_flag_self false = refl

version_of-is_current :
    (digest : String) (seq : ℕ) (n : NewVersion)
    → is_current digest n (version_of digest seq n) ≡ true
unfolding is_current version_of
version_of-is_current digest seq n =
    rw (eq_refl digest, same_skips_self n.skipped_files, same_flag_self n.is_tombstone) refl

-- What an append leaves: the latest version is the given state, under the returned number.
pub record IsLatest (digest : String) (n : NewVersion) (seq : ℕ) (k : Knowledge) : Type 0 where
  pub version : KnowledgeVersion
  pub latest : latest_knowledge_version n.artifact_id k ≡ some version
  pub numbered : version.seq ≡ seq
  pub current : is_current digest n version ≡ true

insert_version-IsLatest :
    (digest : String) (n : NewVersion) (last : ℕ) (k : Knowledge)
    → UpTo n.artifact_id last k.versions
    → (k' : Knowledge) × (insert_version (version_of digest (last + 1) n) k
        ≡ (ok (last + 1, true), k'))
      × IsLatest digest n (last + 1) k'
unfolding insert_version version_of latest_knowledge_version
insert_version-IsLatest digest n last k u =
    let v = version_of digest (last + 1) n in
    (
      record k { versions = k.versions ++ v ∷ [] },
      rw (has_version-above n.artifact_id last k.versions u) refl,
      record {
        version = v;
        latest =
            latest_of-append n.artifact_id last k.versions v u (eq_refl n.artifact_id)
              (omega arith);
        numbered = refl;
        current = version_of-is_current digest (last + 1) n;
      },
    )

pub append_knowledge_version-IsLatest :
    (manifest_hash : List ManifestEntry → String) (n : NewVersion) (k : Knowledge)
    → (seq : ℕ) × (created : Bool) × (k' : Knowledge) × (append_knowledge_version manifest_hash n k
        ≡ (ok (seq, created), k'))
      × IsLatest (manifest_hash n.manifest) n seq k'
      × ((created ≡ true) → seq ≡ top (latest_knowledge_version n.artifact_id k) + 1)
unfolding append_knowledge_version latest_knowledge_version top
append_knowledge_version-IsLatest manifest_hash n k =
    let digest = manifest_hash n.manifest in
    let bounds = latest_of-UpTo n.artifact_id k.versions in
    elim (Option-cases (latest_of n.artifact_id k.versions)) [
      | inl q ↦
          let (k', e, latest) = insert_version-IsLatest digest n 0 k (rw (q, top) at bounds) in
          (1, true, k', rw (q, append_knowledge_version) e, latest, λ _. rw (q, top) refl)
      | inr (v, q) ↦ elim (Bool-cases (is_current digest n v)) [
        | inl c ↦ (
          v.seq,
          false,
          k,
          rw (q, c, append_knowledge_version) refl,
          record { version = v; latest = q; numbered = refl; current = c },
          λ f. absurd (cc f),
        )
        | inr c ↦
            let (k', e, latest) =
              insert_version-IsLatest digest n v.seq k (rw (q, top) at bounds) in
            (
              v.seq + 1,
              true,
              k',
              rw (q, c, append_knowledge_version) e,
              latest,
              λ _. rw (q, top) refl,
            )
      ]
    ]

current_again :
    (manifest_hash : List ManifestEntry → String) (n : NewVersion) (seq : ℕ) (k : Knowledge)
    → IsLatest (manifest_hash n.manifest) n seq k
    → append_knowledge_version manifest_hash n k ≡ (ok (seq, false), k)
unfolding append_knowledge_version
current_again manifest_hash n seq k l =
    rw (l.latest, l.current, append_knowledge_version) (rw l.numbered refl)

-- A scan of unchanged content writes nothing: on any store append_knowledge_version returns a
-- number, and a second append of the same manifest, skipped files and flag, whatever its time, its
-- origin and its linked event, returns that number as not created and leaves the store as it is.
pub append_knowledge_version-again :
    (manifest_hash : List ManifestEntry → String) (n : NewVersion) (k : Knowledge) (occurred_at : ℕ)
    (origin : String) (linked_event_id : Option String)
    → (seq : ℕ) × (created : Bool) × (k' : Knowledge) × (append_knowledge_version manifest_hash n k
        ≡ (ok (seq, created), k'))
      × (append_knowledge_version manifest_hash
            (record n {
              occurred_at = occurred_at;
              origin = origin;
              linked_event_id = linked_event_id;
            })
            k'
          ≡ (ok (seq, false), k'))
unfolding is_current
append_knowledge_version-again manifest_hash n k occurred_at origin linked_event_id =
    let (seq, created, k', e, l, _) = append_knowledge_version-IsLatest manifest_hash n k in
    let n' : NewVersion = record n {
      occurred_at = occurred_at;
      origin = origin;
      linked_event_id = linked_event_id;
    } in
    (
      seq,
      created,
      k',
      e,
      current_again manifest_hash n' seq k' record {
        version = l.version;
        latest = l.latest;
        numbered = l.numbered;
        current = l.current;
      },
    )
