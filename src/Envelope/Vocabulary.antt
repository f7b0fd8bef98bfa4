-- ===== src/Envelope/Vocabulary.antt =====
-- The event types of envelope v1 (hermes_flight_recorder/envelope.py).
use hermes_flight_recorder.Base.{
  any, String, ◌≡◌, Bool, true, List, [], ◌∷◌, ◌++◌, arith, ◌==◌, eq_iff,
}

abbrev pub schema_version : String
schema_version = "1"

abbrev pub p0_poc_event_types : List String
p0_poc_event_types =
    "runtime.gateway_started" ∷ "runtime.gateway_start_failed" ∷ "session.created" ∷ "session.ended"
    ∷ "invocation.started" ∷ "invocation.completed" ∷ "model.usage_recorded" ∷ "tool.call_completed"
    ∷ "subagent.child_spawned" ∷ "subagent.completed" ∷ "delegation.dispatched"
    ∷ "cron.ticker_heartbeat" ∷ "cron.run_claimed" ∷ "cron.run_finished" ∷ "cron.run_missed"
    ∷ "reconcile.gap_detected" ∷ "reconcile.terminal_missing" ∷ "reconcile.capture_stale" ∷ []

abbrev pub reserved_event_types : List String
reserved_event_types =
    "runtime.gateway_stopped" ∷ "session.finalized" ∷ "session.compressed" ∷ "step.iterated"
    ∷ "model.call_requested" ∷ "model.call_succeeded" ∷ "model.call_failed" ∷ "tool.call_requested"
    ∷ "tool.approval_requested" ∷ "tool.approval_responded" ∷ "delegation.delivered"
    ∷ "delegation.progress" ∷ "cron.definition_changed" ∷ "command.invoked"
    ∷ "handoff.state_changed" ∷ "task.created" ∷ "task.claimed" ∷ "task.completed" ∷ "task.blocked"
    ∷ "task.failed_terminal" ∷ "task.attempt_ended" ∷ "runtime.content_chunk_recorded"
    ∷ "knowledge.record_written" ∷ "knowledge.record_compacted" ∷ "security.secret_detected" ∷ []

abbrev pub all_event_types : List String
all_event_types = p0_poc_event_types ++ reserved_event_types

-- The finding types of the reconciler, which skip the secret scan.
abbrev pub reconcile_finding_types : List String
reconcile_finding_types =
    "reconcile.gap_detected" ∷ "reconcile.terminal_missing" ∷ "reconcile.capture_stale"
    ∷ "cron.run_missed" ∷ "runtime.gateway_start_failed" ∷ []

-- value in collection
unfoldable pub contains : String → List String → Bool
contains s = any (λ t. t == s)

pub contains_self : (s : String) (ts : List String) → contains s (s ∷ ts) ≡ true
unfolding contains
contains_self s ts = ground (arith, eq_iff s s)

pub contains_later :
    (s t : String) (ts : List String) → contains s ts ≡ true → contains s (t ∷ ts) ≡ true
unfolding contains
contains_later s t ts h = ground arith
