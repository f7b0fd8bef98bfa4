-- ===== src/Knowledge.antt =====
-- The knowledge store of the outbox (hermes_flight_recorder/collector/outbox_knowledge.py): blobs by
-- the hash of their content, and a chain of versions for each artifact. SHA-256 is the parameter
-- `content_hash`, of a blob, and `manifest_hash`, of a manifest; the encryption of a blob is `seal`.
pub mod Versions
pub mod Keyed
pub mod Deletion
pub mod Pruning
pub mod Blobs
pub mod Snapshot
use hermes_flight_recorder.Base.{
  ltb, leb, eqb, if◌then◌else◌, ltb→lt, lt→ltb, le→ltb, leb→le, Bool-cases, Option-cases, length,
  take, drop, concat, All, any, keep, length-append, take-append-drop, length-take-le, All-append,
  All-left, All-right, All-map, All-apply, keep-true, keep-false, cons-injective, ℤ, pos, negsuc,
  pos_part, neg_part, ◌+ℤ◌, ◌-ℤ◌, ◌≤ℤ◌, ◌<ℤ◌, le_int, lt_int, eq_int, max_int, eq_of_parts,
  <ℤ_trans, str_nat, int_nat, int_nat-str_nat, str_int, int_text, int_text-str_int, ℕ, zero, suc,
  ◌+◌, ◌-◌, ◌*◌, ◌/◌, ◌%◌, ◌^◌, ◌≤◌, ◌<◌, compare, Ordering, min, max, Char, code, String, ◌≡◌,
  refl, sym, ap, ◌∙◌, subst, fun_ext, ◌≢◌, ◌↔◌, ◌⊎◌, inl, inr, Bool, true, false, ◌&&◌, ◌||◌, not,
  Option, none, some, List, [], ◌∷◌, ◌++◌, map, append-nil, append_assoc, arith, ◌==◌, eq_iff,
  eq_refl,
}
use Prim.Native.String.{compare as compare_texts}
use hermes_flight_recorder.Outbox.State.{order_by}
use hermes_flight_recorder.Value.Json.{Bytes}
use hermes_flight_recorder.Result.{Result, ok, err, integrity_error, outbox_error}
use hermes_flight_recorder.Exec.{Exec}
use hermes_flight_recorder.Envelope.Vocabulary.{contains}
use hermes_flight_recorder.Outbox.Append.Records.{Sealed}

pub record ManifestEntry : Type 0 where
  pub path : String
  pub blob_hash : String

-- An item of skipped_files
pub record SkippedFile : Type 0 where
  pub path : String
  pub reason : String
  pub byte_count : ℕ
  pub limit : ℕ

pub record KnowledgeVersion : Type 0 where
  pub artifact_id : String
  pub seq : ℕ
  pub manifest : List ManifestEntry
  pub manifest_hash : String
  pub occurred_at : ℕ
  pub origin : String
  pub linked_event_id : Option String
  pub is_tombstone : Bool
  pub skipped_files : List SkippedFile

pub record KnowledgeBlob : Type 0 where
  pub content_hash : String
  pub sealed : Sealed
  pub byte_len : ℕ

pub record KnowledgeArtifact : Type 0 where
  pub artifact_id : String
  pub kind : String
  pub name : String
  pub category : Option String
  pub provenance : String
  pub first_seen : ℕ

-- The tables knowledge_blob, knowledge_artifact and knowledge_version
pub record Knowledge : Type 0 where
  pub blobs : List KnowledgeBlob
  pub artifacts : List KnowledgeArtifact
  pub versions : List KnowledgeVersion

unfoldable pub find_blob : String → List KnowledgeBlob → Option KnowledgeBlob
find_blob digest [] = none
find_blob digest (b ∷ bs) = if b.content_hash == digest then some b else find_blob digest bs

-- put_blob(content), with the digest and the encryption of the content; the process key that the
-- encryption may mint, and the column key_version, are not modelled
unfoldable pub put_blob :
    (Bytes → String) → (Bytes → Sealed) → Bytes → Knowledge → String × Knowledge
unfolding find_blob
put_blob content_hash seal raw k = elim (find_blob (content_hash raw) k.blobs) [
  | some b ↦ (content_hash raw, k)
  | none ↦ (
    content_hash raw,
    record k {
      blobs =
          k.blobs
          ++ record { content_hash = content_hash raw; sealed = seal raw; byte_len = length raw }
            ∷ [];
    },
  )
]

-- knowledge_blob_size(content_hash)
unfoldable pub knowledge_blob_size : String → Knowledge → Result ℕ
unfolding find_blob
knowledge_blob_size digest k = elim (find_blob digest k.blobs) [
  | none ↦ err outbox_error
  | some b ↦ ok b.byte_len
]

-- upsert_knowledge_artifact(artifact_id, ...): INSERT OR IGNORE
pub find_artifact : String → List KnowledgeArtifact → Option KnowledgeArtifact
find_artifact id [] = none
find_artifact id (a ∷ rest) = if a.artifact_id == id then some a else find_artifact id rest

unfoldable pub upsert_knowledge_artifact : KnowledgeArtifact → Knowledge → Knowledge
unfolding find_artifact
upsert_knowledge_artifact a k = elim (find_artifact a.artifact_id k.artifacts) [
  | some b ↦ k
  | none ↦ record k { artifacts = k.artifacts ++ a ∷ [] }
]

-- The later of a row and the latest of the rest
pub later : KnowledgeVersion → Option KnowledgeVersion → KnowledgeVersion
later v none = v
later v (some w) = if leb w.seq v.seq then v else w

abbrev pub is_of : String → KnowledgeVersion → Bool
is_of id v = v.artifact_id == id

-- WHERE artifact_id=? ORDER BY seq DESC LIMIT 1
unfoldable pub latest_of : String → List KnowledgeVersion → Option KnowledgeVersion
unfolding later
latest_of id [] = none
latest_of id (v ∷ vs) = if is_of id v then some (later v (latest_of id vs)) else latest_of id vs

-- latest_knowledge_version(artifact_id)
unfoldable pub latest_knowledge_version : String → Knowledge → Option KnowledgeVersion
unfolding latest_of
latest_knowledge_version id k = latest_of id k.versions

-- knowledge_artifact(artifact_id)
unfoldable pub knowledge_artifact : String → Knowledge → Option KnowledgeArtifact
unfolding find_artifact
knowledge_artifact id k = find_artifact id k.artifacts

-- ORDER BY artifact_id
abbrev text_le : String → String → Bool
text_le s t = elim (compare_texts s t) [ Ordering.gt ↦ false | _ ↦ true ]

pub insert_id : String → List String → List String
insert_id s [] = s ∷ []
insert_id s (t ∷ ts) = if text_le s t then s ∷ t ∷ ts else t ∷ insert_id s ts

pub order_ids : List KnowledgeArtifact → List String
unfolding insert_id
order_ids [] = []
order_ids (a ∷ rest) = insert_id a.artifact_id (order_ids rest)

-- knowledge_artifact_ids()
unfoldable pub knowledge_artifact_ids : Knowledge → List String
unfolding order_ids
knowledge_artifact_ids k = order_ids k.artifacts

-- knowledge_versions(artifact_id)
unfoldable pub knowledge_versions : String → Knowledge → List KnowledgeVersion
knowledge_versions id k = order_by (λ (v : KnowledgeVersion). v.seq) (keep (is_of id) k.versions)

-- knowledge_versions_after(artifact_id, seq)
unfoldable pub knowledge_versions_after : String → ℤ → Knowledge → List KnowledgeVersion
knowledge_versions_after id seq k =
    order_by (λ (v : KnowledgeVersion). v.seq)
      (keep (λ (v : KnowledgeVersion). is_of id v && lt_int seq (pos v.seq)) k.versions)

-- set_knowledge_version_attribution(artifact_id, seq, origin=..., linked_event_id=...)
unfoldable pub set_knowledge_version_attribution :
    String → ℕ → String → String → Knowledge → Knowledge
set_knowledge_version_attribution id seq origin linked_event_id k = record k {
  versions =
      map
        (λ (v : KnowledgeVersion).
          if is_of id v && eqb v.seq seq
          then record v { origin = origin; linked_event_id = some linked_event_id }
          else v)
        k.versions;
}

-- The equality of two lists of skipped files
same_skip : SkippedFile → SkippedFile → Bool
same_skip a b =
    (a.path == b.path)
    && (a.reason == b.reason)
    && eqb a.byte_count b.byte_count
    && eqb a.limit b.limit

pub same_skips : List SkippedFile → List SkippedFile → Bool
unfolding same_skip
same_skips [] [] = true
same_skips (a ∷ more) (b ∷ bs) = same_skip a b && same_skips more bs
same_skips _ _ = false

abbrev pub same_flag : Bool → Bool → Bool
same_flag true b = b
same_flag false b = not b

-- The arguments of append_knowledge_version
pub record NewVersion : Type 0 where
  pub artifact_id : String
  pub manifest : List ManifestEntry
  pub occurred_at : ℕ
  pub origin : String
  pub linked_event_id : Option String
  pub is_tombstone : Bool
  pub skipped_files : List SkippedFile

unfoldable pub version_of : String → ℕ → NewVersion → KnowledgeVersion
version_of digest seq n = record {
  artifact_id = n.artifact_id;
  seq = seq;
  manifest = n.manifest;
  manifest_hash = digest;
  occurred_at = n.occurred_at;
  origin = n.origin;
  linked_event_id = n.linked_event_id;
  is_tombstone = n.is_tombstone;
  skipped_files = n.skipped_files;
}

-- The latest version has the manifest, the skipped files and the flag.
unfoldable pub is_current : String → NewVersion → KnowledgeVersion → Bool
unfolding same_skips
is_current digest n v =
    (v.manifest_hash == digest)
    && same_skips v.skipped_files n.skipped_files
    && same_flag v.is_tombstone n.is_tombstone

-- PRIMARY KEY (artifact_id, seq)
unfoldable pub has_version : String → ℕ → List KnowledgeVersion → Bool
has_version id seq [] = false
has_version id seq (v ∷ vs) = (is_of id v && eqb v.seq seq) || has_version id seq vs

pub insert_version : KnowledgeVersion → Exec Knowledge (ℕ × Bool)
unfolding has_version
insert_version v k =
    if has_version v.artifact_id v.seq k.versions
    then (err integrity_error, k)
    else (ok (v.seq, true), record k { versions = k.versions ++ v ∷ [] })

-- append_knowledge_version(artifact_id, manifest=..., ...)
unfoldable pub append_knowledge_version :
    (List ManifestEntry → String) → NewVersion → Exec Knowledge (ℕ × Bool)
unfolding latest_knowledge_version is_current insert_version version_of
append_knowledge_version manifest_hash n k =
    let digest = manifest_hash n.manifest in
    elim (latest_knowledge_version n.artifact_id k) [
      | none ↦ insert_version (version_of digest 1 n) k
      | some v ↦
          if is_current digest n v
          then (ok (v.seq, false), k)
          else insert_version (version_of digest (v.seq + 1) n) k
    ]

-- ORDER BY seq DESC, of the numbers of an artifact
pub insert_desc : ℕ → List ℕ → List ℕ
insert_desc n [] = n ∷ []
insert_desc n (m ∷ ms) = if leb m n then n ∷ m ∷ ms else m ∷ insert_desc n ms

pub seqs_desc : String → List KnowledgeVersion → List ℕ
unfolding insert_desc
seqs_desc id [] = []
seqs_desc id (v ∷ vs) = if is_of id v then insert_desc v.seq (seqs_desc id vs) else seqs_desc id vs

-- DELETE FROM knowledge_version WHERE artifact_id=? AND seq=?
pub delete_version : String → List KnowledgeVersion → ℕ → List KnowledgeVersion
delete_version id vs seq = keep (λ (v : KnowledgeVersion). not (is_of id v && eqb v.seq seq)) vs

pub delete_versions : String → List ℕ → List KnowledgeVersion → List KnowledgeVersion
unfolding delete_version
delete_versions id [] vs = vs
delete_versions id (seq ∷ seqs) vs = delete_versions id seqs (delete_version id vs seq)

-- prune_knowledge_versions(artifact_id, keep=...)
unfoldable pub prune_knowledge_versions : String → ℤ → Knowledge → ℕ × Knowledge
unfolding seqs_desc delete_versions
prune_knowledge_versions id newest k =
    let doomed = drop (pos_part (max_int (pos 1) newest)) (seqs_desc id k.versions) in
    (length doomed, record k { versions = delete_versions id doomed k.versions })

-- referenced, of the loop over the manifests
pub references : String → List ManifestEntry → Bool
references digest [] = false
references digest (entry ∷ rest) = entry.blob_hash == digest || references digest rest

pub is_referenced : String → List KnowledgeVersion → Bool
unfolding references
is_referenced digest [] = false
is_referenced digest (v ∷ vs) = references digest v.manifest || is_referenced digest vs

-- gc_orphan_blobs()
unfoldable pub gc_orphan_blobs : Knowledge → ℕ × Knowledge
unfolding is_referenced
gc_orphan_blobs k = (
  length (keep (λ (b : KnowledgeBlob). not (is_referenced b.content_hash k.versions)) k.blobs),
  record k {
    blobs = keep (λ (b : KnowledgeBlob). is_referenced b.content_hash k.versions) k.blobs;
  },
)
