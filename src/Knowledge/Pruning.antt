-- ===== src/Knowledge/Pruning.antt =====
-- What prune_knowledge_versions (hermes_flight_recorder/collector/outbox_knowledge.py) keeps.
use hermes_flight_recorder.Base.{
  Bool-cases, drop, All, ℤ, pos, negsuc, pos_part, max_int, suc, ◌-◌, ◌≤◌, ◌<◌, String, ◌≡◌, subst,
  inl, inr, arith, ◌==◌, eq_iff,
}
use hermes_flight_recorder.Knowledge.{
  Knowledge, latest_of, latest_knowledge_version, seqs_desc, delete_versions,
  prune_knowledge_versions,
}
use hermes_flight_recorder.Knowledge.Versions.{top}
use hermes_flight_recorder.Knowledge.Keyed.{IsKeyed, doomed_below}
use hermes_flight_recorder.Knowledge.Deletion.{latest_of-delete_versions, delete_versions_others}

one_is_kept : (i : ℤ) → 1 ≤ pos_part (max_int (pos 1) i)
one_is_kept (pos n) = ground arith
one_is_kept (negsuc n) = ground arith

-- Retention of versions never drops the latest one: in a store whose artifact and number name one
-- version, pruning an artifact to its newest versions, however few are asked for, leaves the latest
-- version of that artifact and of every other.
pub prune_knowledge_versions-latest_knowledge_version :
    (id j : String) (newest : ℤ) (k : Knowledge)
    → IsKeyed k.versions
    → latest_knowledge_version j (prune_knowledge_versions id newest k).1
      ≡ latest_knowledge_version j k
unfolding prune_knowledge_versions latest_knowledge_version
prune_knowledge_versions-latest_knowledge_version id j newest k keyed =
    let n = pos_part (max_int (pos 1) newest) in
    let least = one_is_kept newest in
    let count : suc (n - 1) ≡ n = omega (arith, least) in
    let doomed : All (λ m. m < top (latest_of id k.versions)) (drop n (seqs_desc id k.versions)) =
      subst (λ c. All (λ m. m < top (latest_of id k.versions)) (drop c (seqs_desc id k.versions)))
        count (doomed_below id (n - 1) k.versions keyed) in
    elim (Bool-cases (id == j)) [
      | inl q ↦
          subst
            (λ a.
              latest_of a (delete_versions id (drop n (seqs_desc id k.versions)) k.versions)
              ≡ latest_of a k.versions)
            ((eq_iff id j).0 q)
            (latest_of-delete_versions id (drop n (seqs_desc id k.versions)) k.versions doomed)
      | inr q ↦ delete_versions_others id j (drop n (seqs_desc id k.versions)) k.versions q
    ]
