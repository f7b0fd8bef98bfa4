-- ===== src/Knowledge/Blobs.antt =====
-- A blob is stored once, and collected when no version refers to it.
use hermes_flight_recorder.Base.{
  if◌then◌else◌, Bool-cases, Option-cases, length, keep, Any, All, All-keep, Option, true, ◌↔◌,
  keep-true, keep-false, String, ◌≡◌, refl, sym, ap, ◌∙◌, subst, inl, inr, Bool, none, some, List,
  [], ◌∷◌, ◌++◌, arith, ◌==◌, eq_iff, eq_refl,
}
use hermes_flight_recorder.Value.Json.{Bytes}
use hermes_flight_recorder.Outbox.Append.Records.{Sealed}
use hermes_flight_recorder.Knowledge.{
  ManifestEntry, KnowledgeVersion, references, KnowledgeBlob, Knowledge, find_blob, put_blob,
  is_referenced, gc_orphan_blobs,
}

find_blob-append :
    (digest : String) (bs : List KnowledgeBlob) (b : KnowledgeBlob)
    → b.content_hash ≡ digest
    → find_blob digest bs ≡ none
    → find_blob digest (bs ++ b ∷ []) ≡ some b
unfolding find_blob
find_blob-append digest [] b q h = rw (q, eq_refl digest) refl
find_blob-append digest (c ∷ bs) b q h = elim (Bool-cases (c.content_hash == digest)) [
  | inl e ↦ absurd (cc (rw (e, find_blob) at h))
  | inr e ↦ rw (e, find_blob) (find_blob-append digest bs b q (rw (e, find_blob) at h))
]

put_blob-known :
    (content_hash : Bytes → String) (seal : Bytes → Sealed) (raw raw₂ : Bytes) (k : Knowledge)
    (b : KnowledgeBlob)
    → content_hash raw₂ ≡ content_hash raw
    → find_blob (content_hash raw) k.blobs ≡ some b
    → put_blob content_hash seal raw₂ k ≡ (content_hash raw, k)
unfolding put_blob
put_blob-known content_hash seal raw raw₂ k b same q =
    let found : find_blob (content_hash raw₂) k.blobs ≡ some b =
      ap (λ d. find_blob d k.blobs) same ∙ q in
    rw (found, put_blob) (ap (λ (d : String). (d, k)) same)

put_blob-new :
    (content_hash : Bytes → String) (seal : Bytes → Sealed) (raw : Bytes) (k : Knowledge)
    → find_blob (content_hash raw) k.blobs ≡ none
    → put_blob content_hash seal raw k ≡ (
      content_hash raw,
      record k {
        blobs =
            k.blobs
            ++ record { content_hash = content_hash raw; sealed = seal raw; byte_len = length raw }
              ∷ [];
      },
    )
unfolding put_blob
put_blob-new content_hash seal raw k q = rw (q, put_blob) refl

-- The blob that a digest has, or else a new one
abbrev pub or_new : Option KnowledgeBlob → KnowledgeBlob → KnowledgeBlob
or_new none b = b
or_new (some c) b = c

-- A blob is content-addressed: after put_blob, which returns the digest of the content, that digest
-- has the blob it had, or else one that holds the sealed content; and putting content of the same
-- digest again, under whatever encryption, returns the digest and changes nothing.
pub put_blob-once :
    (content_hash : Bytes → String) (seal seal₂ : Bytes → Sealed) (raw raw₂ : Bytes) (k : Knowledge)
    → content_hash raw₂ ≡ content_hash raw
    → let (digest, after) = put_blob content_hash seal raw k in
      let fresh : KnowledgeBlob = record {
        content_hash = content_hash raw;
        sealed = seal raw;
        byte_len = length raw;
      } in
      (digest ≡ content_hash raw)
      × (find_blob digest after.blobs ≡ some (or_new (find_blob digest k.blobs) fresh))
      × (put_blob content_hash seal₂ raw₂ after ≡ (digest, after))
put_blob-once content_hash seal seal₂ raw raw₂ k same =
    let b : KnowledgeBlob = record {
      content_hash = content_hash raw;
      sealed = seal raw;
      byte_len = length raw;
    } in
    let Once : String × Knowledge → Type 0 = λ x.
      (x.0 ≡ content_hash raw)
      × (find_blob x.0 x.1.blobs ≡ some (or_new (find_blob x.0 k.blobs) b))
      × (put_blob content_hash seal₂ raw₂ x.1 ≡ x) in
    elim (Option-cases (find_blob (content_hash raw) k.blobs)) [
      | inr (c, q) ↦
          subst Once (sym (put_blob-known content_hash seal raw raw k c refl q))
            (refl, q ∙ rw q refl, put_blob-known content_hash seal₂ raw raw₂ k c same q)
      | inl q ↦
          let stored = find_blob-append (content_hash raw) k.blobs b refl q in
          subst Once (sym (put_blob-new content_hash seal raw k q)) (
            refl,
            stored ∙ rw q refl,
            put_blob-known content_hash seal₂ raw raw₂ (record k { blobs = k.blobs ++ b ∷ [] }) b
                same stored,
          )
    ]

find_blob-keep :
    (digest : String) (p : String → Bool) (bs : List KnowledgeBlob)
    → find_blob digest (keep (λ (b : KnowledgeBlob). p b.content_hash) bs)
      ≡ (if p digest then find_blob digest bs else none)
unfolding find_blob
find_blob-keep digest p [] = ground arith
find_blob-keep digest p (b ∷ bs) =
    let rest = find_blob-keep digest p bs in
    elim (Bool-cases (b.content_hash == digest)) [
      | inl e ↦
          let same = (eq_iff b.content_hash digest).0 e in
          elim (Bool-cases (p digest)) [
            | inl q ↦
                rw
                  (
                    keep-true (λ (b : KnowledgeBlob). p b.content_hash) b bs (ap p same ∙ q),
                    e,
                    q,
                    find_blob,
                  )
                  refl
            | inr q ↦
                rw (keep-false (λ (b : KnowledgeBlob). p b.content_hash) b bs (ap p same ∙ q))
                  (rest ∙ rw q refl)
          ]
      | inr e ↦ elim (Bool-cases (p b.content_hash)) [
        | inl q ↦ rw (keep-true (λ (b : KnowledgeBlob). p b.content_hash) b bs q, e, find_blob) rest
        | inr q ↦
            rw (keep-false (λ (b : KnowledgeBlob). p b.content_hash) b bs q, e, find_blob) rest
      ]
    ]

-- Some manifest of a version lists the digest.
abbrev pub Refers : String → List KnowledgeVersion → Type 0
Refers digest =
    Any (λ (v : KnowledgeVersion). Any (λ (e : ManifestEntry). e.blob_hash ≡ digest) v.manifest)

references_iff :
    (digest : String) (es : List ManifestEntry)
    → (references digest es ≡ true) ↔ Any (λ (e : ManifestEntry). e.blob_hash ≡ digest) es
unfolding references
references_iff digest [] = (λ h. absurd (cc h), λ h. absurd h)
references_iff digest (e ∷ es) =
    let rest = references_iff digest es in
    let here = eq_iff e.blob_hash digest in
    elim (Bool-cases (e.blob_hash == digest)) [
      | inl q ↦ (λ _. inl (here.0 q), λ _. rw q refl)
      | inr q ↦ (
        λ h. inr (rest.0 (rw q at h)),
        λ h. elim h [ inl x ↦ absurd (cc (sym q ∙ here.1 x)) | inr x ↦ rw q (rest.1 x) ],
      )
    ]

is_referenced_iff :
    (digest : String) (vs : List KnowledgeVersion)
    → (is_referenced digest vs ≡ true) ↔ Refers digest vs
unfolding is_referenced
is_referenced_iff digest [] = (λ h. absurd (cc h), λ h. absurd h)
is_referenced_iff digest (v ∷ vs) =
    let rest = is_referenced_iff digest vs in
    let here = references_iff digest v.manifest in
    elim (Bool-cases (references digest v.manifest)) [
      | inl q ↦ (λ _. inl (here.0 q), λ _. rw q refl)
      | inr q ↦ (
        λ h. inr (rest.0 (rw q at h)),
        λ h. elim h [ inl x ↦ absurd (cc (sym q ∙ here.1 x)) | inr x ↦ rw q (rest.1 x) ],
      )
    ]

-- Collection removes the orphans and nothing else: after gc_orphan_blobs each digest that the
-- manifest of some version lists has the blob it had, each blob that is left is listed by the
-- manifest of some version, and the versions are as they were.
pub gc_orphan_blobs-find_blob :
    (digest : String) (k : Knowledge)
    → let k' = (gc_orphan_blobs k).1 in
      (Refers digest k.versions → find_blob digest k'.blobs ≡ find_blob digest k.blobs)
      × All (λ (b : KnowledgeBlob). Refers b.content_hash k.versions) k'.blobs
      × (k'.versions ≡ k.versions)
unfolding gc_orphan_blobs
gc_orphan_blobs-find_blob digest k =
    let used : String → Bool = λ h. is_referenced h k.versions in
    (
      λ r. find_blob-keep digest used k.blobs ∙ rw ((is_referenced_iff digest k.versions).1 r) refl,
      All-keep (λ (b : KnowledgeBlob). Refers b.content_hash k.versions)
          (λ (b : KnowledgeBlob). used b.content_hash)
          (λ b q. (is_referenced_iff b.content_hash k.versions).0 q) k.blobs,
      refl,
    )
