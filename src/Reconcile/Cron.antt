-- ===== src/Reconcile/Cron.antt =====
-- Missed fires of a schedule: _interval_missed, _once_missed, _cron_missed and _near
-- (hermes_flight_recorder/collector/reconcile.py). Times are microseconds; a difference of times in
-- a test stands as a sum on its other side. croniter's answer (expected_instants) is an argument.
pub mod Fuel
pub mod Misses
use hermes_flight_recorder.Base.{
  ltb, leb, eqb, if◌then◌else◌, ltb→lt, lt→ltb, le→ltb, leb→le, Bool-cases, Option-cases, length,
  take, drop, concat, All, any, keep, length-append, take-append-drop, length-take-le, All-append,
  All-left, All-right, All-map, All-apply, keep-true, keep-false, cons-injective, ℤ, pos, negsuc,
  pos_part, neg_part, ◌+ℤ◌, ◌-ℤ◌, ◌≤ℤ◌, ◌<ℤ◌, le_int, lt_int, eq_int, max_int, eq_of_parts,
  <ℤ_trans, str_nat, int_nat, int_nat-str_nat, str_int, int_text, int_text-str_int, ℕ, zero, suc,
  ◌+◌, ◌-◌, ◌*◌, ◌/◌, ◌%◌, ◌^◌, ◌≤◌, ◌<◌, compare, Ordering, min, max, Char, code, String, ◌≡◌,
  refl, sym, ap, ◌∙◌, subst, fun_ext, ◌≢◌, ◌↔◌, ◌⊎◌, inl, inr, Bool, true, false, ◌&&◌, ◌||◌, not,
  Option, none, some, List, [], ◌∷◌, ◌++◌, map, append-nil, append_assoc, arith, ◌==◌, eq_iff,
  eq_refl,
}

-- (first_at, count, is_tail)
pub record Run : Type 0 where
  pub first_at : ℕ
  pub count : ℕ
  pub is_tail : Bool

-- sorted_epochs from bisect_left(sorted_epochs, value - slack)
unfoldable pub from_window : ℕ → ℕ → List ℕ → List ℕ
from_window value slack [] = []
from_window value slack (e ∷ es) =
    let later = from_window value slack es in if ltb (e + slack) value then later else e ∷ es

-- _near(value, sorted_epochs, slack)
unfoldable pub near : ℕ → ℕ → List ℕ → Bool
unfolding from_window
near value slack es = elim (from_window value slack es) [
  | [] ↦ false
  | e ∷ rest ↦ leb e (value + slack)
]

-- runs.append((run_first, run_count, is_tail)), where run_count is not 0
pub close_run : Bool → ℕ → ℕ → List Run → List Run
close_run is_tail first count runs =
    if eqb count 0
    then runs
    else runs ++ record { first_at = first; count = count; is_tail = is_tail } ∷ []

-- The variables of _interval_missed's loop: `rest` is execs from i on, `finished` is set by break.
pub record Loop : Type 0 where
  pub rest : List ℕ
  pub expected : ℕ
  pub run_first : ℕ
  pub run_count : ℕ
  pub runs : List Run

-- What one round does after the inner loop: the next round, or the end.
pub data Round : Type 0 where
  again : Loop → Round
  stop : Loop → Round

module _ (step now slack : ℕ) where
  -- elif expected <= deadline: ... else: break
  pub miss : Loop → Round
  miss l =
      if leb (l.expected + slack) now
      then again (record l {
        expected = l.expected + step;
        run_first = if eqb l.run_count 0 then l.expected else l.run_first;
        run_count = l.run_count + 1;
      })
      else stop l

  -- if i < n and execs[i] <= expected + slack: ...
  pub meet : List ℕ → Loop → Round
  meet [] l = miss l
  meet (e ∷ es) l =
      if leb e (l.expected + slack)
      then again (record l {
        rest = es;
        expected = e + step;
        run_count = 0;
        runs = close_run false l.run_first l.run_count l.runs;
      })
      else miss l

  -- One round of the loop
  pub round : Loop → Round
  unfolding from_window
  round l =
      if leb l.expected (now + slack)
      then (let rest = from_window l.expected slack l.rest in meet rest (record l { rest = rest }))
      else stop l

  -- The loop on fuel; none when the fuel does not reach its end
  pub rounds : ℕ → Loop → Option Loop
  rounds zero l = none
  rounds (suc fuel) l = elim (round l) [ again l' ↦ rounds fuel l' | stop l' ↦ some l' ]

  -- What is left when no round remains, and the fuel that the loop is given
  pub fuel_for : List ℕ → ℕ
  fuel_for execs = (length execs + 1) * (now + slack + 2)

  -- The branch without a real fire
  pub never_fired : ℕ → List Run
  never_fired created =
      if ltb now (created + step + slack)
      then []
      else record {
        first_at = created + step;
        count = max 1 ((now - slack - created) / step);
        is_tail = true;
      }
        ∷ []

  pub finish : Loop → List Run
  finish l = close_run true l.run_first l.run_count l.runs

  pub begin : ℕ → List ℕ → Loop
  begin e es = record {
    rest = e ∷ es;
    expected = e + step;
    run_first = 0;
    run_count = 0;
    runs = [];
  }

  -- _interval_missed(execs, created, step, now, slack)
  unfoldable pub interval_missed : List ℕ → Option ℕ → Option (List Run)
  unfolding rounds round meet miss finish close_run never_fired begin fuel_for
  interval_missed [] none = some []
  interval_missed [] (some created) = some (never_fired created)
  interval_missed (e ∷ es) created = elim (rounds (fuel_for (e ∷ es)) (begin e es)) [
    | none ↦ none
    | some l ↦ some (finish l)
  ]

-- _once_missed(execs, run_at, now, slack)
unfoldable pub once_missed : List ℕ → Option ℕ → ℕ → ℕ → List Run
once_missed execs none now slack = []
once_missed execs (some run_at) now slack =
    if ltb now (run_at + slack)
    then []
    else if near run_at slack execs
    then []
    else record { first_at = run_at; count = 1; is_tail = false } ∷ []

-- is_tail of the last run: expected[-1] >= now - 60.0
abbrev pub last_reaches : ℕ → List ℕ → Bool
last_reaches now [] = false
last_reaches now (inst ∷ []) = leb now (inst + 60000000)
last_reaches now (inst ∷ next ∷ rest) = last_reaches now (next ∷ rest)

module _ (now slack : ℕ) (execs : List ℕ) where
  -- The loop over the expected instants
  pub cron_runs : List ℕ → Bool → ℕ → ℕ → List Run → List Run
  cron_runs [] is_tail first count runs = close_run is_tail first count runs
  cron_runs (inst ∷ rest) is_tail first count runs =
      if near inst slack execs
      then cron_runs rest is_tail first 0 (close_run false first count runs)
      else if leb (inst + slack) now
      then cron_runs rest is_tail (if eqb count 0 then inst else first) (count + 1) runs
      else cron_runs rest is_tail first count runs

-- anchor: execs[0] if execs else created
abbrev pub anchor_of : List ℕ → Option ℕ → Option ℕ
anchor_of [] created = created
anchor_of (e ∷ es) created = some e

-- _cron_missed(expr, execs, created, now, cfg, tz), with expected_instants(expr, lower, now, tz)
unfoldable pub cron_missed : (ℕ → ℕ → List ℕ) → List ℕ → Option ℕ → ℕ → ℕ → ℕ → List Run
unfolding cron_runs close_run
cron_missed expected_instants execs created now slack lookback = elim (anchor_of execs created) [
  | none ↦ []
  | some anchor ↦
      let expected = expected_instants (max anchor (now - lookback)) now in
      cron_runs now slack execs expected (last_reaches now expected) 0 0 []
]
