-- ===== src/Reconcile/Terminals.antt =====
-- _detect_missing_terminals (hermes_flight_recorder/collector/reconcile.py): an invocation that
-- started, and did not complete in its time. An event is a summary of a retained or pruned record,
-- whose identifiers are texts.
pub mod Overdue
use hermes_flight_recorder.Base.{
  ltb, leb, eqb, if◌then◌else◌, ltb→lt, lt→ltb, le→ltb, leb→le, Bool-cases, Option-cases, length,
  take, drop, concat, All, any, keep, length-append, take-append-drop, length-take-le, All-append,
  All-left, All-right, All-map, All-apply, keep-true, keep-false, cons-injective, ℤ, pos, negsuc,
  pos_part, neg_part, ◌+ℤ◌, ◌-ℤ◌, ◌≤ℤ◌, ◌<ℤ◌, le_int, lt_int, eq_int, max_int, eq_of_parts,
  <ℤ_trans, str_nat, int_nat, int_nat-str_nat, str_int, int_text, int_text-str_int, ℕ, zero, suc,
  ◌+◌, ◌-◌, ◌*◌, ◌/◌, ◌%◌, ◌^◌, ◌≤◌, ◌<◌, compare, Ordering, min, max, Char, code, String, ◌≡◌,
  refl, sym, ap, ◌∙◌, subst, fun_ext, ◌≢◌, ◌↔◌, ◌⊎◌, inl, inr, Bool, true, false, ◌&&◌, ◌||◌, not,
  Option, none, some, List, [], ◌∷◌, ◌++◌, map, append-nil, append_assoc, arith, ◌==◌, eq_iff,
  eq_refl,
}
use Prim.Native.String.{◌++◌ as text_append}
use hermes_flight_recorder.Value.{
  Value, text, integer, real, object, Fields, end, field, find, as_text, as_object,
}
use hermes_flight_recorder.Result.{Result, ok, err}
use hermes_flight_recorder.Exec.{Exec}
use hermes_flight_recorder.Envelope.Vocabulary.{contains}
use hermes_flight_recorder.Outbox.Append.Records.{Call, Scan}
use hermes_flight_recorder.Capture.{Collector, Links, no_links}
use hermes_flight_recorder.Reconcile.{
  ReconcilePass, TerminalMissing, terminal_missing, emit_finding,
}

-- e.get("payload", {}).get("event_type")
pub summary_type : Fields → Option String
summary_type e = elim (as_object (find "payload" e)) [
  | none ↦ none
  | some payload ↦ as_text (find "event_type" payload)
]

abbrev pub is_type : String → Fields → Bool
is_type name e = elim (summary_type e) [ none ↦ false | some s ↦ s == name ]

-- e.get("invocation_id")
pub invocation_of : Fields → Option String
invocation_of e = as_text (find "invocation_id" e)

-- The variables `completed` and `started`
pub record Seen : Type 0 where
  pub completed : List String
  pub started : List (String × Fields)

-- started.get(inv)
pub started_event : String → List (String × Fields) → Option Fields
started_event inv [] = none
started_event inv ((key, e) ∷ rest) = if key == inv then some e else started_event inv rest

-- started.setdefault(inv, e)
pub set_default : String → Fields → List (String × Fields) → List (String × Fields)
set_default inv e [] = (inv, e) ∷ []
set_default inv e ((key, f) ∷ rest) =
    if key == inv then (key, f) ∷ rest else (key, f) ∷ set_default inv e rest

-- The body of the first loop
pub see : Fields → Seen → Seen
unfolding set_default
see e s = elim (invocation_of e) [
  | none ↦ s
  | some inv ↦
      if is_type "invocation.completed" e
      then record s { completed = inv ∷ s.completed }
      else if is_type "invocation.started" e
      then record s { started = set_default inv e s.started }
      else s
]

pub see_all : List Fields → Seen → Seen
see_all [] s = s
see_all (e ∷ es) s = see_all es (see e s)

-- e.get("occurred_at"), an integer being a number of seconds. A negative time, which is before every
-- horizon, counts as no time: both are passed over. A boolean is no time.
pub occurred_of : Fields → Option ℕ
occurred_of e = elim (find "occurred_at" e) [
  | some (real n) ↦ some n
  | some (integer (pos n)) ↦ some (n * 1000000)
  | _ ↦ none
]

-- The two tests on the time of the start
pub is_overdue : ReconcilePass → Fields → Bool
is_overdue ctx e = elim (occurred_of e) [
  | none ↦ false
  | some occurred ↦
      not (leb ctx.when (occurred + ctx.config.invocation_terminal_timeout))
      && not (ltb occurred ctx.horizon)
]

-- e.get(name) or other
abbrev or_else : Option String → String → String
or_else none other = other
or_else (some s) other = if s == "" then other else s

abbrev or_zero : Option ℕ → ℕ
or_zero none = 0
or_zero (some n) = n

pub overdue_finding : ReconcilePass → String → Fields → TerminalMissing
unfolding occurred_of
overdue_finding ctx inv e =
    let occurred = or_zero (occurred_of e) in
    record {
      occurred_at = ctx.when;
      correlation_id = or_else (as_text (find "correlation_id" e)) inv;
      subject_type = "invocation";
      subject_id = inv;
      start_event_type = "invocation.started";
      expected_terminal_event_type = "invocation.completed";
      dedup_key = text_append "reconcile:terminal:invocation:" inv;
      details =
          field "start_occurred_at" (real occurred)
            (field "age_seconds" (real (ctx.when - occurred)) end);
      links = record no_links {
        session_id = as_text (find "session_id" e);
        parent_session_id = as_text (find "parent_session_id" e);
        invocation_id = some inv;
        profile = or_else (as_text (find "profile" e)) "default";
      };
    }

-- The second loop, up to its emissions
pub overdue : ReconcilePass → List String → List (String × Fields) → List TerminalMissing
overdue ctx completed [] = []
overdue ctx completed ((inv, e) ∷ rest) =
    let more = overdue ctx completed rest in
    if contains inv completed
    then more
    else if is_overdue ctx e
    then overdue_finding ctx inv e ∷ more
    else more

unfoldable pub missing_terminals : ReconcilePass → List Fields → List TerminalMissing
unfolding overdue see_all see
missing_terminals ctx events =
    let s = see_all events (record { completed = []; started = [] }) in
    overdue ctx s.completed s.started

module _ (calls : ℕ → Call) (scans : ℕ → Scan) (capture_horizon : Option ℕ) where
  pub emit_terminals : List TerminalMissing → Exec Collector Unit
  emit_terminals [] c = (ok tt, c)
  emit_terminals (m ∷ ms) c =
      let (answer, c') = emit_finding calls scans capture_horizon (terminal_missing m) c in
      elim answer [ err e ↦ (err e, c') | ok _ ↦ emit_terminals ms c' ]

  -- _detect_missing_terminals(ctx, events)
  unfoldable pub detect_missing_terminals : ReconcilePass → List Fields → Exec Collector Unit
  unfolding emit_terminals missing_terminals
  detect_missing_terminals ctx events = emit_terminals (missing_terminals ctx events)
