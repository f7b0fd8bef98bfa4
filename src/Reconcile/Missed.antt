-- ===== src/Reconcile/Missed.antt =====
-- The missed fires of a job as findings: _detect_missed_cron, _missed_for_job and _job_is_active
-- (hermes_flight_recorder/collector/reconcile.py). A job is what jobs.json holds, its times in
-- microseconds; the times that croniter expects of an expression are `expected_instants`.
use hermes_flight_recorder.Base.{
  ltb, leb, eqb, if◌then◌else◌, Bool-cases, keep, ℤ, pos, le_int, str_nat, ℕ, ◌*◌, ◌/◌, ◌≤◌, String,
  ◌≡◌, refl, inl, inr, Bool, true, false, ◌&&◌, not, Option, none, some, List, [], ◌∷◌, ◌++◌, map,
  arith, ◌==◌,
}
use Prim.Native.String.{◌++◌ as text_append}
use hermes_flight_recorder.Value.{boolean, text, integer, real, end, field}
use hermes_flight_recorder.Result.{ok, err}
use hermes_flight_recorder.Exec.{Exec}
use hermes_flight_recorder.Outbox.State.{order_by}
use hermes_flight_recorder.Outbox.Append.Records.{Call, Scan}
use hermes_flight_recorder.Capture.{Collector, no_links}
use hermes_flight_recorder.Reconcile.{ReconcilePass, Finding, emit_finding}
use hermes_flight_recorder.Reconcile.Cron.{Run, interval_missed, once_missed, cron_missed}
use hermes_flight_recorder.Reconcile.Runtime.{ticker_is_stale}
use hermes_flight_recorder.Reconcile.Cron.Fuel.{interval_missed_ends}

-- job["schedule"]: the minutes of an interval, 0 when they are missing or not positive; the time of
-- a single run; the expression, none when it is missing
pub data Schedule : Type 0 where
  interval : ℕ → Schedule
  once : Option ℕ → Schedule
  cron : Option String → Schedule
  unknown : Schedule

pub record Job : Type 0 where
  pub id : String
  pub enabled : Option Bool
  pub state : String
  pub paused_at : Option ℕ
  pub times : Option ℤ
  pub completed : ℕ
  pub schedule : Schedule
  pub created_at : Option ℕ

-- A row of executions
pub record Execution : Type 0 where
  pub job_id : String
  pub claimed_epoch : Option ℕ

-- _job_is_active(job)
unfoldable pub job_is_active : Job → Bool
job_is_active job =
    not (is_off job.enabled)
    && not (job.state == "paused")
    && not (is_paused job.paused_at)
    && not (is_exhausted job.times)
  where
    is_off : Option Bool → Bool
    is_off none = false
    is_off (some b) = not b

    is_paused : Option ℕ → Bool
    is_paused none = false
    is_paused (some at) = true

    is_exhausted : Option ℤ → Bool
    is_exhausted none = false
    is_exhausted (some times) = le_int times (pos job.completed)

-- exec_by_job[job_id], in the order of the rows
pub execs_of : String → List Execution → List ℕ
execs_of id [] = []
execs_of id (r ∷ rows) =
    let rest = execs_of id rows in
    elim r.claimed_epoch [ none ↦ rest | some at ↦ if r.job_id == id then at ∷ rest else rest ]

abbrev pub schedule_kind : Schedule → String
schedule_kind (interval minutes) = "interval"
schedule_kind (once run_at) = "once"
schedule_kind (cron expr) = "cron"
schedule_kind unknown = ""

module _ (expected_instants : Option String → ℕ → ℕ → List ℕ) (ctx : ReconcilePass) where
  -- runs, of the branches on the kind
  pub runs_of : List ℕ → Option ℕ → Schedule → Option (List Run)
  runs_of execs created (interval minutes) =
      if eqb minutes 0
      then some []
      else interval_missed (minutes * 60000000) ctx.when ctx.config.cron_match_slack execs created
  runs_of execs created (once run_at) =
      some (once_missed execs run_at ctx.when ctx.config.once_match_slack)
  runs_of execs created (cron expr) = some (
      cron_missed (expected_instants expr) execs created ctx.when ctx.config.cron_match_slack
        ctx.config.cron_lookback)
  runs_of execs created unknown = some []

  pub job_runs : Job → List Execution → Option (List Run)
  unfolding execs_of runs_of
  job_runs job rows =
      runs_of (order_by (λ (n : ℕ). n) (execs_of job.id rows)) job.created_at job.schedule

  -- The two tests on a run
  unfoldable pub is_missed_run : Bool → Run → Bool
  is_missed_run ticker_dead run = leb ctx.horizon run.first_at && not (run.is_tail && ticker_dead)

  pub missed_finding : Job → Run → Finding
  missed_finding job run = record {
    event_type = "cron.run_missed";
    occurred_at = run.first_at;
    correlation_id = job.id;
    payload = field "job_id" (text job.id) (
        field "expected_fire_at" (real run.first_at) (
          field "missed_count" (integer (pos run.count)) (
            field "schedule_kind" (text (schedule_kind job.schedule))
              (field "catch_up" (boolean (ltb 1 run.count)) end))));
    dedup_key =
        text_append "reconcile:missed:"
          (text_append job.id (text_append ":" (str_nat (run.first_at / 1000000))));
    links = no_links;
    partial = true;
  }

  -- The findings of _missed_for_job, in the order of their emission
  unfoldable pub missed_for_job : Bool → List Execution → Job → Option (List Finding)
  unfolding job_is_active job_runs is_missed_run missed_finding
  missed_for_job ticker_dead rows job =
      if job_is_active job
      then (elim (job_runs job rows) [
        | none ↦ none
        | some runs ↦ some (map (missed_finding job) (keep (is_missed_run ticker_dead) runs))
      ])
      else some []

  -- The loop over the jobs
  pub missed_for_jobs : Bool → List Execution → List Job → Option (List Finding)
  unfolding missed_for_job
  missed_for_jobs ticker_dead rows [] = some []
  missed_for_jobs ticker_dead rows (job ∷ jobs) =
      let later = missed_for_jobs ticker_dead rows jobs in
      elim (missed_for_job ticker_dead rows job) [
        | none ↦ none
        | some found ↦ elim later [ none ↦ none | some more ↦ some (found ++ more) ]
      ]

  job_runs_ends :
      (job : Job) (rows : List Execution) → (runs : List Run) × (job_runs job rows ≡ some runs)
  unfolding job_runs
  job_runs_ends job rows =
      let execs = order_by (λ (n : ℕ). n) (execs_of job.id rows) in by_schedule execs job.schedule
    where
      by_schedule :
          (execs : List ℕ) (s : Schedule)
          → (runs : List Run) × (runs_of execs job.created_at s ≡ some runs)
      by_schedule execs (interval minutes) = elim (Bool-cases (eqb minutes 0)) [
        | inl q ↦ ([], rw (q, runs_of) refl)
        | inr q ↦
            let positive : 1 ≤ minutes * 60000000 = ground arith in
            let (runs, e) =
              interval_missed_ends (minutes * 60000000) ctx.when ctx.config.cron_match_slack
                positive execs job.created_at in
            (runs, rw (q, runs_of) e)
      ]
      by_schedule execs (once run_at) = (_, refl)
      by_schedule execs (cron expr) = (_, refl)
      by_schedule execs unknown = ([], refl)

  missed_for_job_ends :
      (ticker_dead : Bool) (rows : List Execution) (job : Job)
      → (found : List Finding) × (missed_for_job ticker_dead rows job ≡ some found)
  unfolding missed_for_job
  missed_for_job_ends ticker_dead rows job = elim (Bool-cases (job_is_active job)) [
    | inr q ↦ ([], rw (q, missed_for_job) refl)
    | inl q ↦
        let (runs, e) = job_runs_ends job rows in
        (
          map (missed_finding job) (keep (is_missed_run ticker_dead) runs),
          rw (q, e, missed_for_job) refl,
        )
  ]

  -- The fuel of an interval is enough for each of the jobs: the detector returns its findings.
  pub missed_for_jobs_ends :
      (ticker_dead : Bool) (rows : List Execution) (jobs : List Job)
      → (found : List Finding) × (missed_for_jobs ticker_dead rows jobs ≡ some found)
  unfolding missed_for_jobs
  missed_for_jobs_ends ticker_dead rows [] = ([], refl)
  missed_for_jobs_ends ticker_dead rows (job ∷ jobs) =
      let (found, q) = missed_for_job_ends ticker_dead rows job in
      let (more, e) = missed_for_jobs_ends ticker_dead rows jobs in
      (found ++ more, rw (q, e, missed_for_jobs) refl)

module _ (calls : ℕ → Call) (scans : ℕ → Scan) (capture_horizon : Option ℕ) where
  -- The calls of emit_finding
  pub emit_missed : List Finding → Exec Collector Unit
  emit_missed [] c = (ok tt, c)
  emit_missed (f ∷ fs) c =
      let (answer, c') = emit_finding calls scans capture_horizon f c in
      elim answer [ err e ↦ (err e, c') | ok _ ↦ emit_missed fs c' ]

  module _ (expected_instants : Option String → ℕ → ℕ → List ℕ) (ctx : ReconcilePass) where
    pub missed_with : List Job → List Execution → Bool → Exec Collector (Option Unit)
    unfolding emit_missed missed_for_jobs
    missed_with jobs rows dead c = elim (missed_for_jobs expected_instants ctx dead rows jobs) [
      | none ↦ (ok none, c)
      | some found ↦
          let (answer, c') = emit_missed found c in
          (elim answer [ err e ↦ err e | ok _ ↦ ok (some tt) ], c')
    ]

    -- ticker_is_stale(ctx), when the caller has not asked it
    pub ask_ticker : Option ℕ → Option Bool → Exec Collector Bool
    ask_ticker heartbeat (some dead) c = (ok dead, c)
    ask_ticker heartbeat none c = ticker_is_stale calls scans capture_horizon ctx heartbeat c

    -- _detect_missed_cron(ctx, exec_rows, ticker_dead=...), with the jobs and the heartbeat; none when
    -- the fuel of an interval does not reach its end
    unfoldable pub detect_missed_cron :
        Option ℕ → Option Bool → List Job → List Execution → Exec Collector (Option Unit)
    unfolding missed_with ask_ticker
    detect_missed_cron heartbeat ticker_dead [] rows c = (ok (some tt), c)
    detect_missed_cron heartbeat ticker_dead (job ∷ jobs) rows c =
        let (answer, c') = ask_ticker heartbeat ticker_dead c in
        elim answer [ err e ↦ (err e, c') | ok dead ↦ missed_with (job ∷ jobs) rows dead c' ]
