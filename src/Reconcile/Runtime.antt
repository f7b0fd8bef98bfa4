-- ===== src/Reconcile/Runtime.antt =====
-- The runtime-health checks (hermes_flight_recorder/collector/reconcile_runtime.py): stale task
-- leases, the capture heartbeat and the ticker heartbeat. The open task runs of the boards, and
-- what read_float makes of the heartbeat file, are arguments; float of a text is `read`.

use hermes_flight_recorder.Base.{
  leb, if◌then◌else◌, pos, str_nat, ℕ, ◌+◌, ◌-◌, ◌/◌, String, Bool, true, false, not, Option, none,
  some, List, [], ◌∷◌,
}
use Prim.Native.String.{◌++◌ as text_append}
use hermes_flight_recorder.Value.{Value, null, text, integer, real, end, field}
use hermes_flight_recorder.Result.{Result, ok, err}
use hermes_flight_recorder.Exec.{Exec}
use hermes_flight_recorder.Outbox.State.{Outbox, get_meta}
use hermes_flight_recorder.Outbox.Append.Records.{Call, Scan}
use hermes_flight_recorder.Capture.{Collector, no_links}
use hermes_flight_recorder.Reconcile.{
  ReconcileConfig, ReconcilePass, Finding, TerminalMissing, terminal_missing, emit_finding,
}

-- A row of task_runs
pub record TaskRun : Type 0 where
  pub board : String
  pub run_id : ℕ
  pub task_id : String
  pub claim_lock : Option String
  pub claim_expires : Option ℕ
  pub last_heartbeat_at : Option ℕ
  pub started_at : Option ℕ

-- lease_is_dead(run, when, config)
unfoldable pub lease_is_dead : TaskRun → ℕ → ReconcileConfig → Bool
lease_is_dead run when config = elim run.claim_expires [
  | none ↦ false
  | some expires ↦
      if leb when (expires + config.task_lease_grace) then false else elim run.last_heartbeat_at [
        | none ↦ true
        | some heartbeat ↦ not (leb when (heartbeat + config.task_heartbeat_stale_after))
      ]
]

abbrev real_or_null : Option ℕ → Value
real_or_null none = null
real_or_null (some n) = real n

abbrev text_or_null : Option String → Value
text_or_null none = null
text_or_null (some s) = text s

abbrev or_zero : Option ℕ → ℕ
or_zero none = 0
or_zero (some n) = n

pub lease_finding : ReconcilePass → TaskRun → TerminalMissing
lease_finding ctx run = record {
  occurred_at = ctx.when;
  correlation_id = run.task_id;
  subject_type = "task_run";
  subject_id = str_nat run.run_id;
  start_event_type = "task.claimed";
  expected_terminal_event_type = "task.attempt_ended";
  dedup_key =
      text_append "reconcile:terminal:task_run:"
        (text_append run.board (text_append ":" (str_nat run.run_id)));
  details = field "board" (text run.board) (
      field "task_id" (text run.task_id) (
        field "run_id" (integer (pos run.run_id)) (
          field "holder" (text_or_null run.claim_lock) (
            field "claim_expires" (real_or_null run.claim_expires) (
              field "last_heartbeat_at" (real_or_null run.last_heartbeat_at) (
                field "start_occurred_at" (real_or_null run.started_at)
                  (field "age_seconds" (real (ctx.when - or_zero run.claim_expires)) end)))))));
  links = no_links;
}

-- int(seconds) of a time
abbrev pub seconds_text : ℕ → String
seconds_text n = str_nat (n / 1000000)

abbrev pub capture_heartbeat_key : String
capture_heartbeat_key = "capture:last_success_at"

-- meta_float(store, key) (hermes_flight_recorder/collector/watermark.py)
unfoldable pub meta_float : (String → Option ℕ) → String → Outbox → Option ℕ
unfolding get_meta
meta_float read key o = elim (get_meta key o) [ none ↦ none | some raw ↦ read raw ]

abbrev pub installed_at_meta_key : String
installed_at_meta_key = "installed_at"

-- _install_horizon(outbox) (hermes_flight_recorder/collector/reconcile.py)
unfoldable pub install_horizon : (String → Option ℕ) → Outbox → ℕ
unfolding meta_float
install_horizon read o = or_zero (meta_float read installed_at_meta_key o)

pub capture_stale_finding : ReconcilePass → String → ℕ → Finding
capture_stale_finding ctx installation_id last = record {
  event_type = "reconcile.capture_stale";
  occurred_at = ctx.when;
  correlation_id = installation_id;
  payload = field "last_success_at" (real last) (
      field "staleness_seconds" (real (ctx.when - last))
        (field "threshold_seconds" (real ctx.config.capture_stale_after) end));
  dedup_key = text_append "reconcile:capture_stale:" (seconds_text last);
  links = no_links;
  partial = true;
}

-- detect_capture_stale, up to its emission
unfoldable pub capture_stale : (String → Option ℕ) → ReconcilePass → Outbox → Option Finding
unfolding meta_float
capture_stale read ctx o = elim (meta_float read capture_heartbeat_key o) [
  | none ↦ none
  | some last ↦
      if leb ctx.when (last + ctx.config.capture_stale_after)
      then none
      else some (capture_stale_finding ctx o.installation_id last)
]

pub ticker_finding : ReconcilePass → ℕ → TerminalMissing
ticker_finding ctx heartbeat = record {
  occurred_at = ctx.when;
  correlation_id = "cron:ticker";
  subject_type = "cron_ticker";
  subject_id = "cron:ticker";
  start_event_type = "cron.ticker_heartbeat";
  expected_terminal_event_type = "cron.ticker_heartbeat";
  dedup_key = text_append "reconcile:ticker_stale:" (seconds_text heartbeat);
  details =
      field "heartbeat" (real heartbeat)
        (field "staleness_seconds" (real (ctx.when - heartbeat)) end);
  links = no_links;
}

module _ (calls : ℕ → Call) (scans : ℕ → Scan) (capture_horizon : Option ℕ)
    (ctx : ReconcilePass) where
  -- detect_stale_task_leases(ctx), over the open runs of the boards
  unfoldable pub detect_stale_task_leases : List TaskRun → Exec Collector Unit
  unfolding lease_is_dead lease_finding
  detect_stale_task_leases [] c = (ok tt, c)
  detect_stale_task_leases (run ∷ runs) c =
      let (answer, c') =
        emit_finding calls scans capture_horizon (terminal_missing (lease_finding ctx run)) c in
      let later : Result Unit × Collector = elim answer [
        | err e ↦ (err e, c')
        | ok _ ↦ detect_stale_task_leases runs c'
      ] in
      let passed = detect_stale_task_leases runs c in
      if lease_is_dead run ctx.when ctx.config then later else passed

  -- detect_capture_stale(ctx)
  unfoldable pub detect_capture_stale : (String → Option ℕ) → Exec Collector Unit
  unfolding capture_stale capture_stale_finding
  detect_capture_stale read c = elim (capture_stale read ctx c.process.outbox) [
    | none ↦ (ok tt, c)
    | some f ↦
        let (answer, c') = emit_finding calls scans capture_horizon f c in
        (elim answer [ err e ↦ err e | ok _ ↦ ok tt ], c')
  ]

  -- ticker_is_stale(ctx), with the time that the heartbeat file holds
  unfoldable pub ticker_is_stale : Option ℕ → Exec Collector Bool
  unfolding ticker_finding
  ticker_is_stale none c = (ok false, c)
  ticker_is_stale (some heartbeat) c =
      if leb ctx.when (heartbeat + ctx.config.ticker_stale_after)
      then (ok false, c)
      else (let (answer, c') =
            emit_finding calls scans capture_horizon
              (terminal_missing (ticker_finding ctx heartbeat)) c in
          (elim answer [ err e ↦ err e | ok _ ↦ ok true ], c'))
