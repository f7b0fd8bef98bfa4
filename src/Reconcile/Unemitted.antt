-- ===== src/Reconcile/Unemitted.antt =====
-- _detect_unemitted_knowledge (hermes_flight_recorder/collector/reconcile.py): the versions that the
-- store has and no event announced.
use hermes_flight_recorder.Base.{
  leb, if◌then◌else◌, ℤ, pos, lt_int, str_nat, ℕ, ◌+◌, String, Bool, true, ◌&&◌, not, Option, List,
  [], ◌∷◌,
}
use Prim.Native.String.{◌++◌ as text_append}
use hermes_flight_recorder.Value.{text, integer, end, field}
use hermes_flight_recorder.Result.{Result, ok, err}
use hermes_flight_recorder.Exec.{Exec}
use hermes_flight_recorder.Outbox.State.{Outbox, get_meta}
use hermes_flight_recorder.Outbox.Append.Records.{Call, Scan}
use hermes_flight_recorder.Sync.Deliver.{int_or_zero}
use hermes_flight_recorder.Capture.{Collector, no_links}
use hermes_flight_recorder.Knowledge.{
  Knowledge, KnowledgeVersion, knowledge_artifact_ids, knowledge_versions,
}
use hermes_flight_recorder.Reconcile.{ReconcilePass, Finding, emit_finding}

-- int(outbox.get_meta(f"knowledge:emitted:{artifact_id}") or 0)
pub last_emitted : Outbox → String → Result ℤ
last_emitted o id = int_or_zero (get_meta (text_append "knowledge:emitted:" id) o)

-- The two tests on a version
pub is_unemitted : ReconcilePass → ℤ → KnowledgeVersion → Bool
is_unemitted ctx emitted v =
    lt_int emitted (pos v.seq)
    && not (leb ctx.when (v.occurred_at + ctx.config.knowledge_drift_grace))

pub version_text : KnowledgeVersion → String
version_text v = text_append v.artifact_id (text_append ":v" (str_nat v.seq))

pub unemitted_finding : ReconcilePass → KnowledgeVersion → Finding
unfolding version_text
unemitted_finding ctx v = record {
  event_type = "reconcile.gap_detected";
  occurred_at = ctx.when;
  correlation_id = text_append "knowledge:" v.artifact_id;
  payload = field "gap_kind" (text "unemitted_knowledge") (
      field "subject_type" (text "knowledge_version") (
        field "subject_id" (text (version_text v)) (
          field "source_table" (text "store:knowledge_version")
            (field "origin" (text v.origin) (field "version_seq" (integer (pos v.seq)) end)))));
  dedup_key = text_append "reconcile:knowledge_unemitted:" (version_text v);
  links = no_links;
  partial = true;
}

module _ (calls : ℕ → Call) (scans : ℕ → Scan) (capture_horizon : Option ℕ)
    (ctx : ReconcilePass) where
  -- The loop over the versions of an artifact
  pub emit_unemitted : ℤ → List KnowledgeVersion → Exec Collector Unit
  emit_unemitted emitted [] c = (ok tt, c)
  emit_unemitted emitted (v ∷ vs) c =
      let (answer, c') = emit_finding calls scans capture_horizon (unemitted_finding ctx v) c in
      let found : Result Unit × Collector = elim answer [
        | err e ↦ (err e, c')
        | ok _ ↦ emit_unemitted emitted vs c'
      ] in
      let passed = emit_unemitted emitted vs c in
      if is_unemitted ctx emitted v then found else passed

  -- The loop over the artifacts
  pub emit_artifacts : Knowledge → List String → Exec Collector Unit
  emit_artifacts k [] c = (ok tt, c)
  emit_artifacts k (id ∷ ids) c = elim (last_emitted c.process.outbox id) [
    | err e ↦ (err e, c)
    | ok emitted ↦
        let (answer, c') = emit_unemitted emitted (knowledge_versions id k) c in
        elim answer [ err e ↦ (err e, c') | ok _ ↦ emit_artifacts k ids c' ]
  ]

  -- _detect_unemitted_knowledge(ctx)
  unfoldable pub detect_unemitted_knowledge : Knowledge → Exec Collector Unit
  unfolding emit_artifacts emit_unemitted unemitted_finding is_unemitted last_emitted
  detect_unemitted_knowledge k = emit_artifacts k (knowledge_artifact_ids k)
