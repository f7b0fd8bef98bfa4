-- ===== src/Knowledge/Snapshot/InMemory.antt =====
-- The limits on the files of an artifact in memory: limit_plaintext_files
-- (hermes_flight_recorder/collector/knowledge_store.py).
use hermes_flight_recorder.Base.{
  ltb, leb, Bool-cases, length, take, All, All-append, ℕ, ◌+◌, ◌≤◌, ◌<◌, String, ◌≡◌, refl, sym,
  ◌∙◌, inl, inr, List, [], ◌∷◌, arith,
}
use hermes_flight_recorder.Value.Json.{Bytes}
use hermes_flight_recorder.Knowledge.{SkippedFile}
use hermes_flight_recorder.Knowledge.Snapshot.{
  KnowledgeConfig, Limiting, omit, limit_file, limit_loop, limit_plaintext_files, sort_by_path,
}
use hermes_flight_recorder.Knowledge.Snapshot.Paths.{
  bytes_of, is_at, occurrences, length_snoc, bytes_of_append_one, occurrences-append_one,
}
use hermes_flight_recorder.Knowledge.Snapshot.Limited.{IsExplained, skipped_path}

abbrev pub file_path : String × Bytes → String
file_path f = f.0

-- What limit_plaintext_files promises of the files that it met
pub record IsSelection (config : KnowledgeConfig) (met : List (String × Bytes)) (l : Limiting)
    : Type 0 where
  pub total : bytes_of l.selected ≤ config.max_artifact_bytes
  pub each : All (λ f. length f.1 ≤ config.max_file_bytes) l.selected
  pub few : length l.selected ≤ config.max_file_count
  pub explained : All (IsExplained config) l.skipped
  pub listed :
      (path : String)
      → occurrences file_path path l.selected + occurrences skipped_path path l.skipped
        ≡ occurrences file_path path met

module _ (config : KnowledgeConfig) where
  -- Between two rounds
  record IsWithin (file_index : ℕ) (met : String → ℕ) (l : Limiting) : Type 0 where
    captured : bytes_of l.selected ≡ l.captured_bytes
    total : l.captured_bytes ≤ config.max_artifact_bytes
    each : All (λ f. length f.1 ≤ config.max_file_bytes) l.selected
    few : length l.selected ≤ config.max_file_count
    behind : length l.selected ≤ file_index
    explained : All (IsExplained config) l.skipped
    listed :
        (path : String)
        → occurrences file_path path l.selected + occurrences skipped_path path l.skipped ≡ met path

  abbrev meet : (String → ℕ) → String × Bytes → String → ℕ
  meet met f path = met path + is_at file_path path f

  omit-IsWithin :
      (n : ℕ) (met : String → ℕ) (f : String × Bytes) (reason : String) (byte_count limit : ℕ)
      (l : Limiting)
      → IsWithin n met l
      → IsExplained config
          (record { path = f.0; reason = reason; byte_count = byte_count; limit = limit })
      → IsWithin (n + 1) (meet met f) (omit f.0 reason byte_count limit l)
  unfolding omit
  omit-IsWithin n met f reason byte_count limit l h x =
      let item : SkippedFile = record {
        path = f.0;
        reason = reason;
        byte_count = byte_count;
        limit = limit;
      } in
      record {
        captured = h.captured;
        total = h.total;
        each = h.each;
        few = h.few;
        behind = omega (arith, h.behind);
        explained = All-append (IsExplained config) l.skipped (item ∷ []) h.explained (x, tt);
        listed = λ path.
            let here = h.listed path in
            let added = occurrences-append_one skipped_path path l.skipped item in
            rw (added, sym here) (omega arith);
      }

  limit_file-IsWithin :
      (n : ℕ) (met : String → ℕ) (f : String × Bytes) (l : Limiting)
      → IsWithin n met l
      → IsWithin (n + 1) (meet met f) (limit_file config n f l)
  unfolding limit_file
  limit_file-IsWithin n met f l h = elim (Bool-cases (leb config.max_file_count n)) [
    | inl a ↦ rw (a, limit_file) (omit-IsWithin n met f _ _ _ l h (inl (refl, refl)))
    | inr a ↦ elim (Bool-cases (ltb config.max_file_bytes (length f.1))) [
      | inl b ↦
          let over : config.max_file_bytes < length f.1 = ground arith in
          rw (a, b, limit_file) (omit-IsWithin n met f _ _ _ l h (inr (inl (refl, refl, over))))
      | inr b ↦ elim (Bool-cases (ltb config.max_artifact_bytes (l.captured_bytes + length f.1))) [
        | inl c ↦
            rw (a, b, c, limit_file) (omit-IsWithin n met f _ _ _ l h (inr (inr (refl, refl))))
        | inr c ↦
            let room : n < config.max_file_count = ground arith in
            let fits : length f.1 ≤ config.max_file_bytes = ground arith in
            let left : l.captured_bytes + length f.1 ≤ config.max_artifact_bytes = ground arith in
            let more = length_snoc l.selected f in
            rw (a, b, c, limit_file)
              record {
                captured =
                    let bytes = bytes_of_append_one l.selected f in
                    omega (arith, bytes, h.captured);
                total = left;
                each =
                    All-append (λ f. length f.1 ≤ config.max_file_bytes) l.selected (f ∷ []) h.each
                      (fits, tt);
                few = omega (arith, more, h.behind, room);
                behind = omega (arith, more, h.behind);
                explained = h.explained;
                listed = λ path.
                    let here = h.listed path in
                    let added = occurrences-append_one file_path path l.selected f in
                    rw (added, sym here) (omega arith);
              }
      ]
    ]
  ]

  limit_loop-IsWithin :
      (n : ℕ) (met : String → ℕ) (fs : List (String × Bytes)) (l : Limiting)
      → IsWithin n met l
      → IsWithin
          (n + length fs)
          (λ path. met path + occurrences file_path path fs)
          (limit_loop config n fs l)
  unfolding limit_loop
  limit_loop-IsWithin n met [] l h = record {
    captured = h.captured;
    total = h.total;
    each = h.each;
    few = h.few;
    behind = omega (arith, h.behind);
    explained = h.explained;
    listed = λ path. let here = h.listed path in omega (arith, here);
  }
  limit_loop-IsWithin n met (f ∷ fs) l h =
      let k =
        limit_loop-IsWithin (n + 1) (meet met f) fs (limit_file config n f l)
          (limit_file-IsWithin n met f l h) in
      record {
        captured = k.captured;
        total = k.total;
        each = k.each;
        few = k.few;
        behind = omega (arith, k.behind);
        explained = k.explained;
        listed = λ path. let here = k.listed path in omega (arith, here);
      }

  -- The limits hold of files in memory: what limit_plaintext_files selects is within the limits on
  -- a file, on the artifact and on the count of files; of the files in the order of their paths, up
  -- to one more than the limit on their count, each path is among the selected and the skipped files
  -- together as often as it is there; and each skipped file names one of the limits with its value.
  pub limit_plaintext_files-IsSelection :
      (files : List (String × Bytes))
      → IsSelection config
          (take (config.max_file_count + 1) (sort_by_path file_path files))
          (limit_plaintext_files config files)
  unfolding limit_plaintext_files
  limit_plaintext_files-IsSelection files =
      let met = take (config.max_file_count + 1) (sort_by_path file_path files) in
      let start : Limiting = record { selected = []; skipped = []; captured_bytes = 0 } in
      let h =
        limit_loop-IsWithin 0 (λ path. 0) met start
          record {
            captured = refl;
            total = omega arith;
            each = tt;
            few = omega arith;
            behind = omega arith;
            explained = tt;
            listed = λ path. refl;
          } in
      record {
        total = omega (arith, h.total, h.captured);
        each = h.each;
        few = h.few;
        explained = h.explained;
        listed = λ path.
            let from_none : 0 + occurrences file_path path met ≡ occurrences file_path path met =
              omega arith in
            h.listed path ∙ from_none;
      }
