-- ===== src/Tests/Findings.antt =====
-- Runs of capture, of the detectors and of the knowledge store.
use hermes_flight_recorder.Base.{
  take, All, keep, pos, str_int, ℕ, String, ◌≡◌, refl, Bool, true, false, ◌&&◌, not, none, some,
  Option, List, [], ◌∷◌, map, arith,
}
use hermes_flight_recorder.Value.{Fields, field, end, text, real, object}
use hermes_flight_recorder.Value.Json.{Bytes}
use hermes_flight_recorder.Result.{ok}
use hermes_flight_recorder.Outbox.State.{Outbox, order_by}
use hermes_flight_recorder.Outbox.Append.{append, append_new, find_event, find_tombstone}
use hermes_flight_recorder.Outbox.Append.Records.{Call, Scan, Sealed}
use hermes_flight_recorder.Capture.{Collector, append_and_count, horizon_drops}
use hermes_flight_recorder.Capture.Once.{SameCapture, append_and_count-once}
use hermes_flight_recorder.Reconcile.{ReconcileConfig, ReconcilePass}
use hermes_flight_recorder.Reconcile.Gaps.{Gap, range, sequence_gaps, detect_sequence_gaps}
use hermes_flight_recorder.Reconcile.Gaps.Missing.{is_stored, sequence_gaps-missing}
use hermes_flight_recorder.Reconcile.Gaps.Sound.{detect_sequence_gaps-IsSound}
use hermes_flight_recorder.Reconcile.Cron.{Run, interval_missed, once_missed, near}
use hermes_flight_recorder.Reconcile.Cron.Fuel.{interval_missed_ends}
use hermes_flight_recorder.Reconcile.Cron.Misses.{IsMissed, interval_missed-IsMissed}
use hermes_flight_recorder.Reconcile.Terminals.{missing_terminals}
use hermes_flight_recorder.Reconcile.Terminals.Overdue.{
  is_reported, is_late, has_completed, first_started, missing_terminals-is_late,
}
use hermes_flight_recorder.Knowledge.{
  ManifestEntry, NewVersion, Knowledge, KnowledgeBlob, find_blob, put_blob, gc_orphan_blobs,
  latest_knowledge_version, append_knowledge_version, version_of, is_current, has_version,
  prune_knowledge_versions,
}
use hermes_flight_recorder.Knowledge.Versions.{IsLatest, append_knowledge_version-again}
use hermes_flight_recorder.Knowledge.Blobs.{
  or_new, Refers, put_blob-once, gc_orphan_blobs-find_blob,
}
use hermes_flight_recorder.Knowledge.Keyed.{IsKeyed}
use hermes_flight_recorder.Knowledge.Pruning.{prune_knowledge_versions-latest_knowledge_version}
use hermes_flight_recorder.Knowledge.Snapshot.{
  KnowledgeConfig, SourceFile, sort_by_path, snapshot_files, limit_plaintext_files,
}
use hermes_flight_recorder.Reconcile.Missed.{
  Schedule, Job, job_is_active, missed_finding, missed_for_job,
}
use hermes_flight_recorder.Knowledge.Snapshot.InMemory.{
  file_path, IsSelection, limit_plaintext_files-IsSelection,
}
use hermes_flight_recorder.Knowledge.Snapshot.Limited.{IsLimited, snapshot_files-IsLimited}
use hermes_flight_recorder.Tests.{body, call, clean, process, one, one-IsSound}

abbrev calls : ℕ → Call
calls n = call

abbrev scans : ℕ → Scan
scans n = clean

abbrev collector : Collector
collector = record { process = process; counts = []; calls_made = 0 }

captured : (append_and_count calls scans none body none "d1" collector).0 ≡ ok true
unfolding append_and_count horizon_drops append append_new find_event find_tombstone str_int
captured = refl

append_and_count-once_example :
    let c = (append_and_count calls scans none body none "d1" collector).1 in
    SameCapture c (append_and_count calls scans none end none "d1" c).1
append_and_count-once_example =
    append_and_count-once calls scans none body none "d1" collector end none refl captured

-- An outbox whose second event was lost.
abbrev lossy : Outbox
lossy = record one { high_water = 2 }

sequence_gaps-missing_example :
    map (λ (g : Gap). g.missing_sequence) (sequence_gaps 2 lossy)
    ≡ keep (λ n. not (is_stored lossy n)) (range 1 2)
sequence_gaps-missing_example = sequence_gaps-missing 2 lossy

abbrev thresholds : ReconcileConfig
thresholds = record {
  invocation_terminal_timeout = 3600000000;
  task_lease_grace = 120000000;
  task_heartbeat_stale_after = 900000000;
  ticker_stale_after = 300000000;
  capture_stale_after = 300000000;
  cron_match_slack = 45000000;
  once_match_slack = 300000000;
  knowledge_drift_grace = 300000000;
  cron_lookback = 86400000000;
  sequence_gap_limit = pos 10000;
}

abbrev ctx : ReconcilePass
ctx = record { when = 9000000000; config = thresholds; horizon = 0 }

abbrev recorded : Collector
recorded = record collector { process = record process { outbox = one } }

detect_sequence_gaps-IsSound_example :
    detect_sequence_gaps calls scans none ctx "i" 1 recorded ≡ (ok tt, recorded)
detect_sequence_gaps-IsSound_example =
    detect_sequence_gaps-IsSound calls scans none ctx "i" recorded one-IsSound

-- Fires at 0, 60 and 240 of a job with a step of 60: those at 120 and 180 were missed.
abbrev fires : List ℕ
fires = 0 ∷ 60 ∷ 240 ∷ []

interval_missed_ends_example :
    (runs : List Run) × (interval_missed 60 250 10 fires none ≡ some runs)
interval_missed_ends_example = interval_missed_ends 60 250 10 (omega arith) fires none

two_missed :
    interval_missed 60 250 10 fires none
    ≡ some (record { first_at = 120; count = 2; is_tail = false } ∷ [])
unfolding interval_missed
two_missed = refl

interval_missed-IsMissed_example :
    (runs : List Run) × (interval_missed 60 250 10 fires none ≡ some runs)
    × All (IsMissed 60 10 fires) runs
interval_missed-IsMissed_example =
    interval_missed-IsMissed 60 250 10 (omega arith) fires none
      ((omega arith, (omega arith, tt)), ((omega arith, tt), (tt, tt)))

-- An invocation that started and did not complete.
abbrev started : Fields
started = field "invocation_id" (text "v") (
    field "occurred_at" (real 1000000)
      (field "payload" (object (field "event_type" (text "invocation.started") end)) end))

missing_terminals-is_late_example :
    is_reported "v" (missing_terminals ctx (started ∷ []))
    ≡ not (has_completed "v" (started ∷ [])) && is_late ctx (first_started "v" (started ∷ []))
missing_terminals-is_late_example = missing_terminals-is_late ctx "v" (started ∷ [])

abbrev no_knowledge : Knowledge
no_knowledge = record { blobs = []; artifacts = []; versions = [] }

abbrev digest_of : List ManifestEntry → String
digest_of [] = "empty"
digest_of (entry ∷ rest) = entry.blob_hash

abbrev skill : NewVersion
skill = record {
  artifact_id = "skill:a";
  manifest = record { path = "SKILL.md"; blob_hash = "b1" } ∷ [];
  occurred_at = 5;
  origin = "background";
  linked_event_id = none;
  is_tombstone = false;
  skipped_files = [];
}

abbrev known : Knowledge
known = record no_knowledge { versions = version_of "b1" 1 skill ∷ [] }

known-IsLatest : IsLatest "b1" skill 1 known
unfolding latest_knowledge_version is_current version_of
known-IsLatest = record {
  version = version_of "b1" 1 skill;
  latest = refl;
  numbered = refl;
  current = refl;
}

append_knowledge_version-again_example :
    (seq : ℕ) × (created : Bool) × (k' : Knowledge) × (append_knowledge_version digest_of skill
        known
      ≡ (ok (seq, created), k'))
    × (append_knowledge_version digest_of
          (record skill { occurred_at = 9; origin = "session"; linked_event_id = some "e1" })
          k'
        ≡ (ok (seq, false), k'))
append_knowledge_version-again_example =
    append_knowledge_version-again digest_of skill known 9 "session" (some "e1")

abbrev content_hash : Bytes → String
content_hash raw = "b1"

abbrev seal : Bytes → Sealed
seal raw = record { ciphertext = "x"; nonce = "n"; hash = "b1" }

abbrev stored_blob : KnowledgeBlob
stored_blob = record { content_hash = "b1"; sealed = seal []; byte_len = 0 }

put_blob-once_example :
    let (digest, after) = put_blob content_hash seal [] no_knowledge in
    (digest ≡ "b1")
    × (find_blob digest after.blobs ≡ some (or_new (find_blob digest []) stored_blob))
    × (put_blob content_hash seal [] after ≡ (digest, after))
put_blob-once_example = put_blob-once content_hash seal seal [] [] no_knowledge refl

abbrev blob : String → KnowledgeBlob
blob digest = record { content_hash = digest; sealed = seal []; byte_len = 0 }

abbrev two_blobs : Knowledge
two_blobs = record known { blobs = blob "b1" ∷ blob "b2" ∷ [] }

gc_orphan_blobs-find_blob_example :
    let k' = (gc_orphan_blobs two_blobs).1 in
    (Refers "b1" two_blobs.versions → find_blob "b1" k'.blobs ≡ find_blob "b1" two_blobs.blobs)
    × All (λ (b : KnowledgeBlob). Refers b.content_hash two_blobs.versions) k'.blobs
    × (k'.versions ≡ two_blobs.versions)
gc_orphan_blobs-find_blob_example = gc_orphan_blobs-find_blob "b1" two_blobs

known-IsKeyed : IsKeyed known.versions
unfolding has_version version_of
known-IsKeyed = (refl, tt)

prune_knowledge_versions-latest_knowledge_version_example :
    latest_knowledge_version "skill:a" (prune_knowledge_versions "skill:a" (pos 0) known).1
    ≡ latest_knowledge_version "skill:a" known
prune_knowledge_versions-latest_knowledge_version_example =
    prune_knowledge_versions-latest_knowledge_version "skill:a" "skill:a" (pos 0) known
      known-IsKeyed

abbrev limits : KnowledgeConfig
limits = record { max_file_count = 1; max_file_bytes = 2; max_artifact_bytes = 3 }

-- The second file is over the count.
abbrev source_files : List SourceFile
source_files =
    record { path = "b.md"; st_size = 1; st_mtime = 5; content = 7 ∷ [] }
    ∷ record { path = "a.md"; st_size = 1; st_mtime = 4; content = 8 ∷ [] }
    ∷ []

snapshot_files-IsLimited_example :
    IsLimited limits source_files
      (snapshot_files content_hash seal limits true source_files no_knowledge)
snapshot_files-IsLimited_example =
    snapshot_files-IsLimited content_hash seal limits true source_files no_knowledge

-- The first path in order fits; the second is over the count.
limited :
    (limit_plaintext_files limits (("b.md", 7 ∷ []) ∷ ("a.md", 8 ∷ []) ∷ [])).selected
    ≡ ("a.md", 8 ∷ []) ∷ []
unfolding limit_plaintext_files
limited = refl

abbrev two_files : List (String × Bytes)
two_files = ("b.md", 7 ∷ []) ∷ ("a.md", 8 ∷ []) ∷ []

limit_plaintext_files-IsSelection_example :
    IsSelection limits
      (take 2 (sort_by_path file_path two_files))
      (limit_plaintext_files limits two_files)
limit_plaintext_files-IsSelection_example = limit_plaintext_files-IsSelection limits two_files

abbrev no_instants : Option String → ℕ → ℕ → List ℕ
no_instants expr lower now = []

-- A single run that was due in second 301, and that did not start.
abbrev single : Option Bool → Job
single enabled = record {
  id = "j1";
  enabled = enabled;
  state = "";
  paused_at = none;
  times = none;
  completed = 0;
  schedule = Schedule.once (some 301000000);
  created_at = none;
}

abbrev after_lapse : ReconcilePass
after_lapse = record ctx { when = 100000000000 }

missed_once :
    missed_for_job no_instants after_lapse true [] (single none)
    ≡ some (
        missed_finding no_instants after_lapse
          (single none)
          (record { first_at = 301000000; count = 1; is_tail = false })
        ∷ [])
unfolding missed_for_job job_is_active once_missed near order_by
missed_once = refl

disabled : missed_for_job no_instants after_lapse true [] (single (some false)) ≡ some []
unfolding missed_for_job job_is_active
disabled = refl
