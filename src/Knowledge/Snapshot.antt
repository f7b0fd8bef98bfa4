-- ===== src/Knowledge/Snapshot.antt =====
-- A snapshot of the files of an artifact within its limits: _snapshot_files and
-- limit_plaintext_files (hermes_flight_recorder/collector/knowledge_store.py). A file is what stat
-- and read answer; its content need not have the size of its stat. An OSError is not modelled.
pub mod Paths
pub mod Limited
pub mod InMemory
use hermes_flight_recorder.Base.{
  ltb, leb, eqb, if◌then◌else◌, ltb→lt, lt→ltb, le→ltb, leb→le, Bool-cases, Option-cases, length,
  take, drop, concat, All, any, keep, length-append, take-append-drop, length-take-le, All-append,
  All-left, All-right, All-map, All-apply, keep-true, keep-false, cons-injective, ℤ, pos, negsuc,
  pos_part, neg_part, ◌+ℤ◌, ◌-ℤ◌, ◌≤ℤ◌, ◌<ℤ◌, le_int, lt_int, eq_int, max_int, eq_of_parts,
  <ℤ_trans, str_nat, int_nat, int_nat-str_nat, str_int, int_text, int_text-str_int, ℕ, zero, suc,
  ◌+◌, ◌-◌, ◌*◌, ◌/◌, ◌%◌, ◌^◌, ◌≤◌, ◌<◌, compare, Ordering, min, max, Char, code, String, ◌≡◌,
  refl, sym, ap, ◌∙◌, subst, fun_ext, ◌≢◌, ◌↔◌, ◌⊎◌, inl, inr, Bool, true, false, ◌&&◌, ◌||◌, not,
  Option, none, some, List, [], ◌∷◌, ◌++◌, map, append-nil, append_assoc, arith, ◌==◌, eq_iff,
  eq_refl,
}
use Prim.Native.String.{compare as compare_texts}
use hermes_flight_recorder.Value.Json.{Bytes}
use hermes_flight_recorder.Outbox.Append.Records.{Sealed}
use hermes_flight_recorder.Knowledge.{ManifestEntry, SkippedFile, Knowledge, put_blob}

-- The limits of KnowledgeConfig
pub record KnowledgeConfig : Type 0 where
  pub max_file_count : ℕ
  pub max_file_bytes : ℕ
  pub max_artifact_bytes : ℕ

pub record SourceFile : Type 0 where
  pub path : String
  pub st_size : ℕ
  pub st_mtime : ℕ
  pub content : Bytes

-- The variables of the loop, with the store that put_blob writes
pub record Snapshot : Type 0 where
  pub store : Knowledge
  pub manifest : List ManifestEntry
  pub plaintext_files : List (String × Bytes)
  pub skipped : List SkippedFile
  pub occurred_at : ℕ
  pub captured_bytes : ℕ

-- _skip_metadata(...)
pub skip : String → String → ℕ → ℕ → Snapshot → Snapshot
skip path reason byte_count limit s = record s {
  skipped =
      s.skipped
      ++ record { path = path; reason = reason; byte_count = byte_count; limit = limit } ∷ [];
}

-- list.sort(key=lambda entry: entry["path"])
module _ {A : Type 0} (path_of : A → String) where
  abbrev pub path_le : A → A → Bool
  path_le x y = elim (compare_texts (path_of x) (path_of y)) [ Ordering.gt ↦ false | _ ↦ true ]

  pub insert_by_path : A → List A → List A
  insert_by_path x [] = x ∷ []
  insert_by_path x (y ∷ ys) = if path_le x y then x ∷ y ∷ ys else y ∷ insert_by_path x ys

  pub sort_by_path : List A → List A
  unfolding insert_by_path
  sort_by_path [] = []
  sort_by_path (x ∷ xs) = insert_by_path x (sort_by_path xs)

-- plaintext_files[rel_path] = raw
pub put_file : String → Bytes → List (String × Bytes) → List (String × Bytes)
put_file path raw [] = (path, raw) ∷ []
put_file path raw ((name, old) ∷ files) =
    if name == path then (name, raw) ∷ files else (name, old) ∷ put_file path raw files

module _ (content_hash : Bytes → String) (seal : Bytes → Sealed) (config : KnowledgeConfig)
    (store : Bool) where
  -- A file that passed the limits
  pub capture : SourceFile → Bytes → Snapshot → Snapshot
  unfolding put_file
  capture f raw s =
      let (digest, after) =
        if store then put_blob content_hash seal raw s.store else (content_hash raw, s.store) in
      record s {
        store = after;
        manifest = s.manifest ++ record { path = f.path; blob_hash = digest } ∷ [];
        plaintext_files = put_file f.path raw s.plaintext_files;
        captured_bytes = s.captured_bytes + length raw;
      }

  -- The checks on what was read
  pub check_read : SourceFile → Bytes → ℕ → Snapshot → Snapshot
  check_read f raw remaining s =
      if ltb config.max_file_bytes (length raw)
      then skip f.path "max_file_bytes" (length raw) config.max_file_bytes s
      else if ltb remaining (length raw)
      then skip f.path "max_artifact_bytes" (length raw) config.max_artifact_bytes s
      else capture f raw s

  -- The body of the loop
  pub snapshot_file : ℕ → SourceFile → Snapshot → Snapshot
  unfolding skip capture check_read
  snapshot_file file_index f before =
      let s : Snapshot = record before { occurred_at = max before.occurred_at f.st_mtime } in
      let remaining = config.max_artifact_bytes - s.captured_bytes in
      if leb config.max_file_count file_index
      then skip f.path "max_file_count" f.st_size config.max_file_count s
      else if ltb config.max_file_bytes f.st_size
      then skip f.path "max_file_bytes" f.st_size config.max_file_bytes s
      else if ltb remaining f.st_size
      then skip f.path "max_artifact_bytes" f.st_size config.max_artifact_bytes s
      else check_read f (take (min config.max_file_bytes remaining + 1) f.content) remaining s

  pub snapshot_loop : ℕ → List SourceFile → Snapshot → Snapshot
  snapshot_loop file_index [] s = s
  snapshot_loop file_index (f ∷ fs) s =
      snapshot_loop (file_index + 1) fs (snapshot_file file_index f s)

  -- _snapshot_files(outbox, config, artifact_id, files, store=...)
  unfoldable pub snapshot_files : List SourceFile → Knowledge → Snapshot
  unfolding snapshot_loop snapshot_file sort_by_path
  snapshot_files files k =
      let s = snapshot_loop 0 files (record {
        store = k;
        manifest = [];
        plaintext_files = [];
        skipped = [];
        occurred_at = 0;
        captured_bytes = 0;
      }) in
      record s {
        manifest = sort_by_path (λ (e : ManifestEntry). e.path) s.manifest;
        skipped = sort_by_path (λ (e : SkippedFile). e.path) s.skipped;
      }

-- selected, skipped and captured_bytes of limit_plaintext_files
pub record Limiting : Type 0 where
  pub selected : List (String × Bytes)
  pub skipped : List SkippedFile
  pub captured_bytes : ℕ

pub omit : String → String → ℕ → ℕ → Limiting → Limiting
omit path reason byte_count limit l = record l {
  skipped =
      l.skipped
      ++ record { path = path; reason = reason; byte_count = byte_count; limit = limit } ∷ [];
}

module _ (config : KnowledgeConfig) where
  -- The body of its loop
  pub limit_file : ℕ → String × Bytes → Limiting → Limiting
  unfolding omit
  limit_file file_index (path, content) l =
      let byte_count = length content in
      if leb config.max_file_count file_index
      then omit path "max_file_count" byte_count config.max_file_count l
      else if ltb config.max_file_bytes byte_count
      then omit path "max_file_bytes" byte_count config.max_file_bytes l
      else if ltb config.max_artifact_bytes (l.captured_bytes + byte_count)
      then omit path "max_artifact_bytes" byte_count config.max_artifact_bytes l
      else record l {
        selected = l.selected ++ (path, content) ∷ [];
        captured_bytes = l.captured_bytes + byte_count;
      }

  pub limit_loop : ℕ → List (String × Bytes) → Limiting → Limiting
  unfolding limit_file
  limit_loop file_index [] l = l
  limit_loop file_index (f ∷ fs) l = limit_loop (file_index + 1) fs (limit_file file_index f l)

  -- limit_plaintext_files(config, artifact_id, files)
  unfoldable pub limit_plaintext_files : List (String × Bytes) → Limiting
  unfolding limit_loop sort_by_path
  limit_plaintext_files files =
      limit_loop 0
        (take (config.max_file_count + 1) (sort_by_path (λ (f : String × Bytes). f.0) files))
        (record { selected = []; skipped = []; captured_bytes = 0 })
