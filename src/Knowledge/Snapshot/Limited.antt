-- ===== src/Knowledge/Snapshot/Limited.antt =====
-- A snapshot stays within the limits, and accounts for each file: _snapshot_files
-- (hermes_flight_recorder/collector/knowledge_store.py).
use hermes_flight_recorder.Base.{
  All-append, sym, ◌∙◌, ◌⊎◌, ltb, leb, if◌then◌else◌, Bool-cases, length, take, All, ℕ, ◌+◌, ◌-◌,
  ◌≤◌, ◌<◌, min, max, String, ◌≡◌, refl, inl, inr, Bool, List, [], ◌∷◌, arith,
}
use hermes_flight_recorder.Value.Json.{Bytes}
use hermes_flight_recorder.Outbox.Append.Records.{Sealed}
use hermes_flight_recorder.Knowledge.{ManifestEntry, SkippedFile, Knowledge, put_blob}
use hermes_flight_recorder.Knowledge.Snapshot.{
  KnowledgeConfig, SourceFile, Snapshot, skip, capture, check_read, snapshot_file, snapshot_loop,
  snapshot_files,
}
use hermes_flight_recorder.Knowledge.Snapshot.Paths.{
  bytes_of, is_at, occurrences, length-sort_by_path, occurrences-sort_by_path,
  occurrences-append_one, All-sort_by_path, bytes_of-put_file, All-put_file, length_snoc,
}

abbrev pub entry_path : ManifestEntry → String
entry_path e = e.path

abbrev pub skipped_path : SkippedFile → String
skipped_path x = x.path

abbrev pub source_path : SourceFile → String
source_path f = f.path

-- The reason of a skipped file is one of the three limits, and its limit is that one.
abbrev pub IsExplained : KnowledgeConfig → SkippedFile → Type 0
IsExplained config x =
    ((x.reason ≡ "max_file_count") × (x.limit ≡ config.max_file_count))
    ⊎ (((x.reason ≡ "max_file_bytes")
          × (x.limit ≡ config.max_file_bytes)
          × (config.max_file_bytes < x.byte_count))
        ⊎ ((x.reason ≡ "max_artifact_bytes") × (x.limit ≡ config.max_artifact_bytes)))

-- What a snapshot of files promises
pub record IsLimited (config : KnowledgeConfig) (files : List SourceFile) (s : Snapshot)
    : Type 0 where
  pub listed :
      (path : String)
      → occurrences entry_path path s.manifest + occurrences skipped_path path s.skipped
        ≡ occurrences source_path path files
  pub explained : All (IsExplained config) s.skipped
  pub total : bytes_of s.plaintext_files ≤ config.max_artifact_bytes
  pub each : All (λ f. length f.1 ≤ config.max_file_bytes) s.plaintext_files
  pub few : length s.manifest ≤ config.max_file_count
  pub accounted : length s.manifest + length s.skipped ≡ length files

module _ (content_hash : Bytes → String) (seal : Bytes → Sealed) (config : KnowledgeConfig)
    (store : Bool) where
  -- Between two rounds, before the file with the index, when `met` counts the paths so far
  record IsWithin (file_index : ℕ) (met : String → ℕ) (s : Snapshot) : Type 0 where
    captured : bytes_of s.plaintext_files ≤ s.captured_bytes
    total : s.captured_bytes ≤ config.max_artifact_bytes
    each : All (λ f. length f.1 ≤ config.max_file_bytes) s.plaintext_files
    few : length s.manifest ≤ config.max_file_count
    accounted : length s.manifest + length s.skipped ≡ file_index
    listed :
        (path : String)
        → occurrences entry_path path s.manifest + occurrences skipped_path path s.skipped
          ≡ met path
    explained : All (IsExplained config) s.skipped

  -- The count of the paths after one more file
  abbrev meet : (String → ℕ) → SourceFile → String → ℕ
  meet met f path = met path + is_at source_path path f

  skip-IsWithin :
      (n : ℕ) (met : String → ℕ) (f : SourceFile) (reason : String) (byte_count limit : ℕ)
      (s : Snapshot)
      → IsWithin n met s
      → IsExplained config
          (record { path = f.path; reason = reason; byte_count = byte_count; limit = limit })
      → IsWithin (n + 1) (meet met f) (skip f.path reason byte_count limit s)
  unfolding skip
  skip-IsWithin n met f reason byte_count limit s h x =
      let item : SkippedFile = record {
        path = f.path;
        reason = reason;
        byte_count = byte_count;
        limit = limit;
      } in
      let more = length_snoc s.skipped item in
      record {
        captured = h.captured;
        total = h.total;
        each = h.each;
        few = h.few;
        accounted = omega (arith, more, h.accounted);
        listed = λ path.
            let here = h.listed path in
            let added = occurrences-append_one skipped_path path s.skipped item in
            rw (added, sym here) (omega arith);
        explained = All-append (IsExplained config) s.skipped (item ∷ []) h.explained (x, tt);
      }

  capture-IsWithin :
      (n : ℕ) (met : String → ℕ) (f : SourceFile) (raw : Bytes) (s : Snapshot)
      → IsWithin n met s
      → n < config.max_file_count
      → length raw ≤ config.max_file_bytes
      → s.captured_bytes + length raw ≤ config.max_artifact_bytes
      → IsWithin (n + 1) (meet met f) (capture content_hash seal config store f raw s)
  unfolding capture
  capture-IsWithin n met f raw s h c e t =
      let added =
        (if store then put_blob content_hash seal raw s.store else (content_hash raw, s.store)).0 in
      let entry : ManifestEntry = record { path = f.path; blob_hash = added } in
      let more = length_snoc s.manifest entry in
      record {
        captured =
            let b = bytes_of-put_file f.path raw s.plaintext_files in omega (arith, b, h.captured);
        total = t;
        each =
            All-put_file (λ f. length f.1 ≤ config.max_file_bytes) f.path raw s.plaintext_files
              (λ _. e) h.each;
        few = omega (arith, more, h.accounted, c);
        accounted = omega (arith, more, h.accounted);
        listed = λ path.
            let here = h.listed path in
            let added = occurrences-append_one entry_path path s.manifest entry in
            rw (added, sym here) (omega arith);
        explained = h.explained;
      }

  check_read-IsWithin :
      (n : ℕ) (met : String → ℕ) (f : SourceFile) (raw : Bytes) (s : Snapshot)
      → IsWithin n met s
      → n < config.max_file_count
      → IsWithin (n + 1) (meet met f) (
          check_read content_hash seal config store f raw
            (config.max_artifact_bytes - s.captured_bytes)
            s)
  unfolding check_read
  check_read-IsWithin n met f raw s h c =
      elim (Bool-cases (ltb config.max_file_bytes (length raw))) [
        | inl q ↦
            let over : config.max_file_bytes < length raw = ground arith in
            rw (q, check_read) (skip-IsWithin n met f _ _ _ s h (inr (inl (refl, refl, over))))
        | inr q ↦
            elim (Bool-cases (ltb (config.max_artifact_bytes - s.captured_bytes) (length raw))) [
              | inl r ↦
                  rw (q, r, check_read) (skip-IsWithin n met f _ _ _ s h (inr (inr (refl, refl))))
              | inr r ↦
                  let total = h.total in
                  rw (q, r, check_read)
                    (capture-IsWithin n met f raw s h c (ground arith) (ground (arith, total)))
            ]
      ]

  snapshot_file-IsWithin :
      (n : ℕ) (met : String → ℕ) (f : SourceFile) (before : Snapshot)
      → IsWithin n met before
      → IsWithin (n + 1) (meet met f) (snapshot_file content_hash seal config store n f before)
  unfolding snapshot_file
  snapshot_file-IsWithin n met f before h =
      let s : Snapshot = record before { occurred_at = max before.occurred_at f.st_mtime } in
      let k : IsWithin n met s = record {
        captured = h.captured;
        total = h.total;
        each = h.each;
        few = h.few;
        accounted = h.accounted;
        listed = h.listed;
        explained = h.explained;
      } in
      let remaining = config.max_artifact_bytes - s.captured_bytes in
      elim (Bool-cases (leb config.max_file_count n)) [
        | inl a ↦ rw (a, snapshot_file) (skip-IsWithin n met f _ _ _ s k (inl (refl, refl)))
        | inr a ↦ elim (Bool-cases (ltb config.max_file_bytes f.st_size)) [
          | inl b ↦
              let over : config.max_file_bytes < f.st_size = ground arith in
              rw (a, b, snapshot_file)
                (skip-IsWithin n met f _ _ _ s k (inr (inl (refl, refl, over))))
          | inr b ↦ elim (Bool-cases (ltb remaining f.st_size)) [
            | inl c ↦
                rw (a, b, c, snapshot_file)
                  (skip-IsWithin n met f _ _ _ s k (inr (inr (refl, refl))))
            | inr c ↦
                rw (a, b, c, snapshot_file)
                  (check_read-IsWithin n met f
                    (take (min config.max_file_bytes remaining + 1) f.content) s k (ground arith))
          ]
        ]
      ]

  snapshot_loop-IsWithin :
      (n : ℕ) (met : String → ℕ) (fs : List SourceFile) (s : Snapshot)
      → IsWithin n met s
      → IsWithin
          (n + length fs)
          (λ path. met path + occurrences source_path path fs)
          (snapshot_loop content_hash seal config store n fs s)
  unfolding snapshot_loop
  snapshot_loop-IsWithin n met [] s h = record {
    captured = h.captured;
    total = h.total;
    each = h.each;
    few = h.few;
    accounted = omega (arith, h.accounted);
    listed = λ path. let here = h.listed path in omega (arith, here);
    explained = h.explained;
  }
  snapshot_loop-IsWithin n met (f ∷ fs) s h =
      let k =
        snapshot_loop-IsWithin (n + 1) (meet met f) fs
          (snapshot_file content_hash seal config store n f s)
          (snapshot_file-IsWithin n met f s h) in
      record {
        captured = k.captured;
        total = k.total;
        each = k.each;
        few = k.few;
        accounted = omega (arith, k.accounted);
        listed = λ path. let here = k.listed path in omega (arith, here);
        explained = k.explained;
      }

  -- A snapshot is bounded and complete: whatever the sizes that stat reports and the contents that
  -- are read, what is captured is within the limits on a file, on the artifact and on the count of
  -- files; each path is in the manifest and among the skipped files together as often as it is in
  -- the files; and each skipped file names one of the limits with its value.
  pub snapshot_files-IsLimited :
      (files : List SourceFile) (k : Knowledge)
      → IsLimited config files (snapshot_files content_hash seal config store files k)
  unfolding snapshot_files
  snapshot_files-IsLimited files k =
      let start : Snapshot = record {
        store = k;
        manifest = [];
        plaintext_files = [];
        skipped = [];
        occurred_at = 0;
        captured_bytes = 0;
      } in
      let h =
        snapshot_loop-IsWithin 0 (λ path. 0) files start
          record {
            captured = omega arith;
            total = omega arith;
            each = tt;
            few = omega arith;
            accounted = refl;
            listed = λ path. refl;
            explained = tt;
          } in
      let s = snapshot_loop content_hash seal config store 0 files start in
      record {
        listed = λ path.
            let from_none : 0 + occurrences source_path path files
                ≡ occurrences source_path path files =
              omega arith in
            rw
              (
                occurrences-sort_by_path entry_path path s.manifest,
                occurrences-sort_by_path skipped_path path s.skipped,
              )
              (h.listed path ∙ from_none);
        explained = All-sort_by_path skipped_path (IsExplained config) s.skipped h.explained;
        total = omega (arith, h.total, h.captured);
        each = h.each;
        few = omega (arith, h.few, length-sort_by_path entry_path s.manifest);
        accounted = omega (
          arith,
          h.accounted,
          length-sort_by_path entry_path s.manifest,
          length-sort_by_path skipped_path s.skipped,
        );
      }
