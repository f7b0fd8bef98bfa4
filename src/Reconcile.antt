-- ===== src/Reconcile.antt =====
-- Reconciliation: the context of a pass and the output of its findings
-- (hermes_flight_recorder/collector/reconcile_common.py). Times are microseconds.
pub mod Gaps
pub mod Cron
pub mod Terminals
pub mod Runtime
pub mod Unemitted
pub mod Missed
use hermes_flight_recorder.Base.{
  ltb, leb, eqb, if◌then◌else◌, ltb→lt, lt→ltb, le→ltb, leb→le, Bool-cases, Option-cases, length,
  take, drop, concat, All, any, keep, length-append, take-append-drop, length-take-le, All-append,
  All-left, All-right, All-map, All-apply, keep-true, keep-false, cons-injective, ℤ, pos, negsuc,
  pos_part, neg_part, ◌+ℤ◌, ◌-ℤ◌, ◌≤ℤ◌, ◌<ℤ◌, le_int, lt_int, eq_int, max_int, eq_of_parts,
  <ℤ_trans, str_nat, int_nat, int_nat-str_nat, str_int, int_text, int_text-str_int, ℕ, zero, suc,
  ◌+◌, ◌-◌, ◌*◌, ◌/◌, ◌%◌, ◌^◌, ◌≤◌, ◌<◌, compare, Ordering, min, max, Char, code, String, ◌≡◌,
  refl, sym, ap, ◌∙◌, subst, fun_ext, ◌≢◌, ◌↔◌, ◌⊎◌, inl, inr, Bool, true, false, ◌&&◌, ◌||◌, not,
  Option, none, some, List, [], ◌∷◌, ◌++◌, map, append-nil, append_assoc, arith, ◌==◌, eq_iff,
  eq_refl,
}
use hermes_flight_recorder.Value.{Value, text, Fields, field, update}
use hermes_flight_recorder.Value.Json.{Bytes}
use hermes_flight_recorder.Exec.{Exec}
use hermes_flight_recorder.Outbox.Append.Records.{Call, Scan}
use hermes_flight_recorder.Capture.{Links, Collector, runtime_stamp, build_record, append_and_count}

-- The thresholds of ReconcileConfig that the modelled detectors read
pub record ReconcileConfig : Type 0 where
  pub invocation_terminal_timeout : ℕ
  pub task_lease_grace : ℕ
  pub task_heartbeat_stale_after : ℕ
  pub ticker_stale_after : ℕ
  pub capture_stale_after : ℕ
  pub cron_match_slack : ℕ
  pub once_match_slack : ℕ
  pub knowledge_drift_grace : ℕ
  pub cron_lookback : ℕ
  pub sequence_gap_limit : ℤ

-- ReconcilePass, without what is mutated
pub record ReconcilePass : Type 0 where
  pub when : ℕ
  pub config : ReconcileConfig
  pub horizon : ℕ

-- The arguments of emit_finding
pub record Finding : Type 0 where
  pub event_type : String
  pub occurred_at : ℕ
  pub correlation_id : String
  pub payload : Fields
  pub dedup_key : String
  pub links : Links
  pub partial : Bool

-- The record of a finding
unfoldable pub finding_fields : Finding → Fields
unfolding build_record runtime_stamp
finding_fields f =
    build_record f.event_type f.occurred_at "reconciler" "derive:reconciler"
      (runtime_stamp "reconciler") f.correlation_id f.payload f.links f.partial

module _ (calls : ℕ → Call) (scans : ℕ → Scan) (capture_horizon : Option ℕ) where
  -- emit_finding(ctx, event_type=..., ...), without content
  unfoldable pub emit_finding : Finding → Exec Collector Bool
  unfolding finding_fields
  emit_finding f = append_and_count calls scans capture_horizon (finding_fields f) none f.dedup_key

-- The arguments of emit_terminal_missing
pub record TerminalMissing : Type 0 where
  pub occurred_at : ℕ
  pub correlation_id : String
  pub subject_type : String
  pub subject_id : String
  pub start_event_type : String
  pub expected_terminal_event_type : String
  pub dedup_key : String
  pub details : Fields
  pub links : Links

-- emit_terminal_missing(ctx, ...), up to its call of emit_finding
unfoldable pub terminal_missing : TerminalMissing → Finding
unfolding update
terminal_missing m = record {
  event_type = "reconcile.terminal_missing";
  occurred_at = m.occurred_at;
  correlation_id = m.correlation_id;
  payload =
      update
        (field "subject_type" (text m.subject_type) (
          field "subject_id" (text m.subject_id) (
            field "start_event_type" (text m.start_event_type) (
              field "expected_terminal_event_type" (text m.expected_terminal_event_type)
                Fields.end))))
        m.details;
  dedup_key = m.dedup_key;
  links = m.links;
  partial = true;
}
