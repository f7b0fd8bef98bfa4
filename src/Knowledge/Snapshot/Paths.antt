-- ===== src/Knowledge/Snapshot/Paths.antt =====
-- The lists of a snapshot: the paths that they have, sorted or not, and the bytes of its files
-- (_snapshot_files in hermes_flight_recorder/collector/knowledge_store.py).
use hermes_flight_recorder.Base.{
  ap, ◌∙◌, if◌then◌else◌, Bool-cases, length, All, ℕ, ◌+◌, ◌≤◌, String, ◌≡◌, refl, inl, inr, List,
  [], ◌∷◌, ◌++◌, arith, ◌==◌,
}
use hermes_flight_recorder.Value.Json.{Bytes}
use hermes_flight_recorder.Knowledge.Snapshot.{path_le, put_file, insert_by_path, sort_by_path}

abbrev pub bytes_of : List (String × Bytes) → ℕ
bytes_of [] = 0
bytes_of ((path, raw) ∷ files) = length raw + bytes_of files

-- How many of a list have the path
abbrev pub is_at : {A : Type 0} → (A → String) → String → A → ℕ
is_at path_of path x = if path_of x == path then 1 else 0

abbrev pub occurrences : {A : Type 0} → (A → String) → String → List A → ℕ
occurrences path_of path [] = 0
occurrences path_of path (x ∷ xs) = is_at path_of path x + occurrences path_of path xs

module _ {A : Type 0} (path_of : A → String) where
  pub length-insert_by_path :
      (x : A) (xs : List A) → length (insert_by_path path_of x xs) ≡ length xs + 1
  unfolding insert_by_path
  length-insert_by_path x [] = refl
  length-insert_by_path x (y ∷ ys) = ground (arith, length-insert_by_path x ys)

  pub length-sort_by_path : (xs : List A) → length (sort_by_path path_of xs) ≡ length xs
  unfolding sort_by_path
  length-sort_by_path [] = refl
  length-sort_by_path (x ∷ xs) =
      omega (arith, length-insert_by_path x (sort_by_path path_of xs), length-sort_by_path xs)

  pub occurrences-insert_by_path :
      (path : String) (x : A) (xs : List A)
      → occurrences path_of path (insert_by_path path_of x xs)
        ≡ is_at path_of path x + occurrences path_of path xs
  unfolding insert_by_path
  occurrences-insert_by_path path x [] = refl
  occurrences-insert_by_path path x (y ∷ ys) =
      let rest = occurrences-insert_by_path path x ys in
      elim (Bool-cases (path_le path_of x y)) [
        | inl q ↦ rw (q, insert_by_path) refl
        | inr q ↦ rw (q, insert_by_path, rest) (omega arith)
      ]

  pub occurrences-sort_by_path :
      (path : String) (xs : List A)
      → occurrences path_of path (sort_by_path path_of xs) ≡ occurrences path_of path xs
  unfolding sort_by_path
  occurrences-sort_by_path path [] = refl
  occurrences-sort_by_path path (x ∷ xs) =
      occurrences-insert_by_path path x (sort_by_path path_of xs)
      ∙ ap (λ n. is_at path_of path x + n) (occurrences-sort_by_path path xs)

  pub occurrences-append_one :
      (path : String) (xs : List A) (x : A)
      → occurrences path_of path (xs ++ x ∷ []) ≡ occurrences path_of path xs + is_at path_of path x
  occurrences-append_one path [] x = omega arith
  occurrences-append_one path (y ∷ xs) x = omega (arith, occurrences-append_one path xs x)

  pub All-insert_by_path :
      (P : A → Type 0) (x : A) (xs : List A) → P x → All P xs → All P (insert_by_path path_of x xs)
  unfolding insert_by_path
  All-insert_by_path P x [] h a = (h, tt)
  All-insert_by_path P x (y ∷ ys) h a = elim (Bool-cases (path_le path_of x y)) [
    | inl q ↦ rw (q, insert_by_path) (h, a)
    | inr q ↦ rw (q, insert_by_path) (a.0, All-insert_by_path P x ys h a.1)
  ]

  pub All-sort_by_path : (P : A → Type 0) (xs : List A) → All P xs → All P (sort_by_path path_of xs)
  unfolding sort_by_path
  All-sort_by_path P [] h = tt
  All-sort_by_path P (x ∷ xs) h =
      All-insert_by_path P x (sort_by_path path_of xs) h.0 (All-sort_by_path P xs h.1)

pub bytes_of-put_file :
    (path : String) (raw : Bytes) (fs : List (String × Bytes))
    → bytes_of (put_file path raw fs) ≤ bytes_of fs + length raw
unfolding put_file
bytes_of-put_file path raw [] = omega arith
bytes_of-put_file path raw ((name, old) ∷ fs) =
    let rest = bytes_of-put_file path raw fs in
    elim (Bool-cases (name == path)) [
      | inl q ↦ rw (q, put_file) (omega arith)
      | inr q ↦ rw (q, put_file) (omega (arith, rest))
    ]

pub All-put_file :
    (P : String × Bytes → Type 0) (path : String) (raw : Bytes) (fs : List (String × Bytes))
    → ((name : String) → P (name, raw))
    → All P fs
    → All P (put_file path raw fs)
unfolding put_file
All-put_file P path raw [] h a = (h path, tt)
All-put_file P path raw ((name, old) ∷ fs) h a = elim (Bool-cases (name == path)) [
  | inl q ↦ rw (q, put_file) (h name, a.1)
  | inr q ↦ rw (q, put_file) (a.0, All-put_file P path raw fs h a.1)
]

pub length_snoc : {A : Type 0} (xs : List A) (x : A) → length (xs ++ x ∷ []) ≡ length xs + 1
length_snoc [] x = refl
length_snoc (y ∷ xs) x = omega (arith, length_snoc xs x)

pub bytes_of_append_one :
    (fs : List (String × Bytes)) (f : String × Bytes)
    → bytes_of (fs ++ f ∷ []) ≡ bytes_of fs + length f.1
bytes_of_append_one [] f = omega arith
bytes_of_append_one (g ∷ fs) f = omega (arith, bytes_of_append_one fs f)
