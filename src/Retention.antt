-- ===== src/Retention.antt =====
-- Retention (collector/retention.py). The text of a float and its parsing are the parameters
-- `show` (repr) and `read` (float), times are microseconds, and the sizes of the database are
-- `storage`, as in Outbox.Prune.
pub mod Safety
pub mod Rate
pub mod Invariant
use hermes_flight_recorder.Base.{
  ltb, leb, eqb, if◌then◌else◌, ltb→lt, lt→ltb, le→ltb, leb→le, Bool-cases, Option-cases, length,
  take, drop, concat, All, any, keep, length-append, take-append-drop, length-take-le, All-append,
  All-left, All-right, All-map, All-apply, keep-true, keep-false, cons-injective, ℤ, pos, negsuc,
  pos_part, neg_part, ◌+ℤ◌, ◌-ℤ◌, ◌≤ℤ◌, ◌<ℤ◌, le_int, lt_int, eq_int, max_int, eq_of_parts,
  <ℤ_trans, str_nat, int_nat, int_nat-str_nat, str_int, int_text, int_text-str_int, ℕ, zero, suc,
  ◌+◌, ◌-◌, ◌*◌, ◌/◌, ◌%◌, ◌^◌, ◌≤◌, ◌<◌, compare, Ordering, min, max, Char, code, String, ◌≡◌,
  refl, sym, ap, ◌∙◌, subst, fun_ext, ◌≢◌, ◌↔◌, ◌⊎◌, inl, inr, Bool, true, false, ◌&&◌, ◌||◌, not,
  Option, none, some, List, [], ◌∷◌, ◌++◌, map, append-nil, append_assoc, arith, ◌==◌, eq_iff,
  eq_refl,
}
use hermes_flight_recorder.Result.{
  Result, ok, err, ◌>>=◌, ◌>>◌, require, retention_error, value_error,
}
use hermes_flight_recorder.Exec.{Exec}
use hermes_flight_recorder.Outbox.State.{Outbox, get_meta, set_meta}
use hermes_flight_recorder.Outbox.Prune.{Storage, PruneResult, prune_delivered}
use hermes_flight_recorder.Sync.Deliver.{delivery_cursor}

pub record RetentionConfig : Type 0 where
  pub enabled : Bool
  pub max_age_days : Option ℕ
  pub max_bytes : Option ℕ
  pub require_delivered : Bool
  pub vacuum : String

abbrev pub microseconds_of_day : ℕ
microseconds_of_day = 86400000000

abbrev pub last_auto_prune_key : String
last_auto_prune_key = "retention:last_auto_prune_at"

abbrev pub cutoff_of : Option ℕ → ℕ → Option ℤ
cutoff_of none now = none
cutoff_of (some days) now = some (pos now -ℤ pos (days * microseconds_of_day))

-- except Exception as exc: raise RetentionError
pub as_retention_error : Result PruneResult × Outbox → Result (Option PruneResult) × Outbox
as_retention_error (ok result, o) = (ok (some result), o)
as_retention_error (err e, o) = (err retention_error, o)

pub try_prune : Storage → RetentionConfig → ℕ → Exec Outbox PruneResult
try_prune storage config now o = elim (delivery_cursor o) [
  | err e ↦ (err e, o)
  | ok cursor ↦
      prune_delivered storage cursor (cutoff_of config.max_age_days now) config.max_bytes true o
]

-- prune(outbox, config, now=...)
unfoldable pub prune : Storage → RetentionConfig → ℕ → Exec Outbox (Option PruneResult)
unfolding as_retention_error try_prune
prune storage config now o =
    if not config.enabled
    then (ok none, o)
    else if not (config.require_delivered && config.vacuum == "auto")
    then (err retention_error, o)
    else as_retention_error (try_prune storage config now o)

-- outbox.set_meta(...) after a prune that returned
pub note_run : String → Result (Option PruneResult) × Outbox → Result (Option PruneResult) × Outbox
note_run now_text (ok result, o) = (ok result, set_meta last_auto_prune_key now_text o)
note_run now_text (err e, o) = (err e, o)

module _ (show : ℕ → String) (read : String → Option ℕ) where
  -- float(raw_last_run), None where there is no value or it is not a number
  pub last_run : Outbox → Option ℕ
  last_run o = elim (get_meta last_auto_prune_key o) [ none ↦ none | some raw ↦ read raw ]

  pub is_recent : Option ℕ → ℕ → ℕ → Bool
  is_recent none interval now = false
  is_recent (some last) interval now = ltb now (last + interval)

  -- maybe_prune(outbox, config, now=..., interval_seconds=...)
  unfoldable pub maybe_prune : Storage → RetentionConfig → ℕ → ℕ → Exec Outbox (Option PruneResult)
  unfolding last_run is_recent note_run get_meta set_meta
  maybe_prune storage config interval now o =
      if not config.enabled
      then (ok none, o)
      else if eqb interval 0
      then (err value_error, o)
      else if is_recent (last_run o) interval now
      then (ok none, o)
      else note_run (show now) (prune storage config now o)
