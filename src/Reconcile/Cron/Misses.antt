-- ===== src/Reconcile/Cron/Misses.antt =====
-- A fire that is reported as missed had no real fire in its window.
use hermes_flight_recorder.Base.{
  ltb, leb, eqb, if◌then◌else◌, Bool-cases, Option-cases, All, All-append, All-map, ℕ, zero, suc,
  ◌+◌, ◌-◌, ◌*◌, ◌/◌, ◌≤◌, ◌<◌, max, ◌≡◌, refl, sym, ap, ◌∙◌, subst, ◌⊎◌, inl, inr, Bool, true,
  false, Option, none, some, List, [], ◌∷◌, ◌++◌, append_assoc, arith,
}
use hermes_flight_recorder.Reconcile.Cron.{
  Run, Loop, Round, again, stop, from_window, near, miss, meet, round, rounds, fuel_for, begin,
  never_fired, finish, close_run, interval_missed,
}
use hermes_flight_recorder.Reconcile.Cron.Fuel.{Round-cases, interval_missed_ends}

-- The fires are sorted.
abbrev pub IsSorted : List ℕ → Type 0
IsSorted [] = Unit
IsSorted (e ∷ es) = All (λ f. e ≤ f) es × IsSorted es

-- Each of the fires of a run was missed, and there is one.
pub record IsMissed (step slack : ℕ) (execs : List ℕ) (r : Run) : Type 0 where
  pub counted : 1 ≤ r.count
  pub silent : (k : ℕ) → k < r.count → near (r.first_at + k * step) slack execs ≡ false

-- No fire in the window of `value`
abbrev pub IsSilent : ℕ → ℕ → List ℕ → Type 0
IsSilent value slack es = All (λ e. (e + slack < value) ⊎ (value + slack < e)) es

some-injective : {A : Type 0} {a b : A} → some a ≡ some b → a ≡ b
some-injective h = cc

pub near-IsSilent :
    (value slack : ℕ) (es : List ℕ) → IsSilent value slack es → near value slack es ≡ false
unfolding near from_window
near-IsSilent value slack [] h = refl
near-IsSilent value slack (e ∷ es) h = elim (Bool-cases (ltb (e + slack) value)) [
  | inl q ↦ rw (q, near, from_window) (near-IsSilent value slack es h.1)
  | inr q ↦
      rw (q, near, from_window)
        (elim h.0 [ inl low ↦ absurd (ground arith) | inr high ↦ ground arith ])
]

from_window-split :
    (value slack : ℕ) (es : List ℕ)
    → (passed : List ℕ) × (es ≡ passed ++ from_window value slack es)
      × All (λ e. e + slack < value) passed
unfolding from_window
from_window-split value slack [] = ([], refl, tt)
from_window-split value slack (e ∷ es) = elim (Bool-cases (ltb (e + slack) value)) [
  | inl q ↦
      let (passed, same, low) = from_window-split value slack es in
      rw q (e ∷ passed, ap (λ r. e ∷ r) same, (ground arith, low))
  | inr q ↦ rw q ([], refl, tt)
]

IsSorted-right : (es fs : List ℕ) → IsSorted (es ++ fs) → IsSorted fs
IsSorted-right [] fs s = s
IsSorted-right (e ∷ es) fs s = IsSorted-right es fs s.1

-- The window begins at its first fire.
abbrev Begins : ℕ → ℕ → List ℕ → Type 0
Begins value slack [] = Unit
Begins value slack (e ∷ es) = value ≤ e + slack

from_window-Begins :
    (value slack : ℕ) (es : List ℕ) → Begins value slack (from_window value slack es)
unfolding from_window
from_window-Begins value slack [] = tt
from_window-Begins value slack (e ∷ es) = elim (Bool-cases (ltb (e + slack) value)) [
  | inl q ↦ rw q (from_window-Begins value slack es)
  | inr q ↦ rw q (ground arith)
]

module _ (step now slack : ℕ) (execs : List ℕ) (wide : slack < step) where
  -- Between two rounds: the fires before `rest` lie before the window, and the open run is missed.
  record IsHonest (l : Loop) : Type 0 where
    past : List ℕ
    whole : execs ≡ past ++ l.rest
    before : All (λ e. e + slack < l.expected) past
    sorted : IsSorted l.rest
    reported : All (IsMissed step slack execs) l.runs
    open_run : (k : ℕ) → k < l.run_count → near (l.run_first + k * step) slack execs ≡ false
    next_run : (l.run_count ≡ 0) ⊎ (l.expected ≡ l.run_first + l.run_count * step)

  abbrev HonestRound : Round → Type 0
  HonestRound (again l) = IsHonest l
  HonestRound (stop l) = IsHonest l

  close_run-IsMissed :
      (is_tail : Bool) (l : Loop)
      → IsHonest l
      → All (IsMissed step slack execs) (close_run is_tail l.run_first l.run_count l.runs)
  unfolding close_run
  close_run-IsMissed is_tail l h = elim (Bool-cases (eqb l.run_count 0)) [
    | inl q ↦ rw (q, close_run) h.reported
    | inr q ↦
        rw (q, close_run)
          (All-append (IsMissed step slack execs) l.runs _ h.reported
            (record { counted = ground arith; silent = h.open_run }, tt))
  ]

  -- The run after a miss begins where it began, or at the miss.
  abbrev began : Loop → ℕ
  began l = if eqb l.run_count 0 then l.expected else l.run_first

  began-expected : (l : Loop) → IsHonest l → l.expected ≡ began l + l.run_count * step
  began-expected l h = elim (Bool-cases (eqb l.run_count 0)) [
    | inl q ↦ let none_yet : l.run_count ≡ 0 = ground arith in rw (q, none_yet) (omega arith)
    | inr q ↦ rw q (elim h.next_run [ inl e ↦ absurd (ground arith) | inr e ↦ e ])
  ]

  longer_run :
      (l : Loop)
      → IsHonest l
      → near l.expected slack execs ≡ false
      → (k : ℕ) → k < l.run_count + 1
      → near (began l + k * step) slack execs ≡ false
  longer_run l h missed k low = elim (Bool-cases (ltb k l.run_count)) [
    | inl q ↦
        let more : eqb l.run_count 0 ≡ false = ground arith in rw more (h.open_run k (ground arith))
    | inr q ↦
        let last : l.run_count ≡ k = ground arith in
        subst (λ v. near v slack execs ≡ false)
          (began-expected l h ∙ ap (λ (c : ℕ). began l + c * step) last) missed
  ]

  next_fire :
      (first count expected : ℕ)
      → expected ≡ first + count * step
      → expected + step ≡ first + (count + 1) * step
  next_fire first count expected e = omega (arith, e)

  past-IsSilent :
      (l : Loop) (h : IsHonest l)
      → All (λ e. l.expected + slack < e) l.rest
      → near l.expected slack execs ≡ false
  past-IsSilent l h later = near-IsSilent l.expected slack execs (
      rw h.whole (
        All-append (λ e. (e + slack < l.expected) ⊎ (l.expected + slack < e)) h.past l.rest
          (All-map _ _ (λ e k. inl k) h.past h.before) (All-map _ _ (λ e k. inr k) l.rest later)))

  miss-HonestRound :
      (l : Loop)
      → IsHonest l
      → All (λ e. l.expected + slack < e) l.rest
      → HonestRound (miss step now slack l)
  unfolding miss
  miss-HonestRound l h later = elim (Bool-cases (leb (l.expected + slack) now)) [
    | inr q ↦ rw (q, miss) h
    | inl q ↦
        rw (q, miss)
          record {
            past = h.past;
            whole = h.whole;
            before =
                All-map (λ e. e + slack < l.expected) (λ e. e + slack < l.expected + step)
                  (λ e k. omega (arith, k)) h.past h.before;
            sorted = h.sorted;
            reported = h.reported;
            open_run = longer_run l h (past-IsSilent l h later);
            next_run =
                inr (let e = began-expected l h in next_fire (began l) l.run_count l.expected e);
          }
  ]

  advance-IsHonest :
      (l : Loop) → IsHonest l → IsHonest (record l { rest = from_window l.expected slack l.rest })
  advance-IsHonest l h =
      let (passed, same, low) = from_window-split l.expected slack l.rest in
      record {
        past = h.past ++ passed;
        whole = h.whole ∙ ap (λ r. h.past ++ r) same ∙ sym (append_assoc h.past passed _);
        before = All-append (λ e. e + slack < l.expected) h.past passed h.before low;
        sorted = IsSorted-right passed _ (subst IsSorted same h.sorted);
        reported = h.reported;
        open_run = h.open_run;
        next_run = h.next_run;
      }

  meet-HonestRound :
      (l : Loop)
      → IsHonest l
      → Begins l.expected slack l.rest
      → HonestRound (meet step now slack l.rest l)
  unfolding meet
  meet-HonestRound l h b = meets l.rest refl
    where
      meets : (rest : List ℕ) → l.rest ≡ rest → HonestRound (meet step now slack rest l)
      meets [] q = miss-HonestRound l h (rw q tt)
      meets (e ∷ es) q = elim (Bool-cases (leb e (l.expected + slack))) [
        | inl f ↦
            let begins : l.expected ≤ e + slack = rw q at b in
            let s : IsSorted (e ∷ es) = subst IsSorted q h.sorted in
            rw (f, meet)
              record {
                past = h.past ++ e ∷ [];
                whole = h.whole ∙ ap (λ r. h.past ++ r) q ∙ sym (append_assoc h.past (e ∷ []) es);
                before =
                    All-append (λ p. p + slack < e + step) h.past (e ∷ [])
                      (All-map (λ p. p + slack < l.expected) _
                        (λ p k. omega (arith, k, begins, wide)) h.past h.before)
                      (omega (arith, wide), tt);
                sorted = s.1;
                reported = close_run-IsMissed false l h;
                open_run = λ k low. absurd (omega (arith, low));
                next_run = inl refl;
              }
        | inr f ↦
            let s : IsSorted (e ∷ es) = subst IsSorted q h.sorted in
            let over : l.expected + slack < e = ground arith in
            rw (f, meet)
              (miss-HonestRound l h
                (rw q (over, All-map (λ p. e ≤ p) _ (λ p k. omega (arith, k, over)) es s.0)))
      ]

  round-HonestRound : (l : Loop) → IsHonest l → HonestRound (round step now slack l)
  unfolding round
  round-HonestRound l h = elim (Bool-cases (leb l.expected (now + slack))) [
    | inr q ↦ rw (q, round) h
    | inl q ↦
        rw (q, round)
          (meet-HonestRound (record l { rest = from_window l.expected slack l.rest })
            (advance-IsHonest l h) (from_window-Begins l.expected slack l.rest))
  ]

  rounds-IsHonest :
      (fuel : ℕ) (l : Loop) {l' : Loop}
      → IsHonest l
      → rounds step now slack fuel l ≡ some l'
      → IsHonest l'
  unfolding rounds
  rounds-IsHonest zero l h q = absurd (cc q)
  rounds-IsHonest (suc fuel) l {l'} h q = elim (Round-cases (round step now slack l)) [
    | inl (l₂, e) ↦
        rounds-IsHonest fuel l₂ (subst HonestRound e (round-HonestRound l h)) (rw (e, rounds) at q)
    | inr (l₂, e) ↦
        let same : l₂ ≡ l' = cc (rw (e, rounds) at q) in
        subst IsHonest same (subst HonestRound e (round-HonestRound l h))
  ]

module _ (step now slack : ℕ) (wide : slack < step) where
  never_fired-IsMissed :
      (created : ℕ) → All (IsMissed step slack []) (never_fired step now slack created)
  unfolding never_fired near
  never_fired-IsMissed created = elim (Bool-cases (ltb now (created + step + slack))) [
    | inl q ↦ rw (q, never_fired) tt
    | inr q ↦
        rw (q, never_fired)
          (
            record {
              counted = at_least (((now - slack) - created) / step);
              silent = λ k low. refl;
            },
            tt,
          )
  ]
    where
      at_least : (n : ℕ) → 1 ≤ max 1 n
      at_least n = omega arith

  runs-IsMissed :
      (execs : List ℕ) (created : Option ℕ) {runs : List Run}
      → IsSorted execs
      → interval_missed step now slack execs created ≡ some runs
      → All (IsMissed step slack execs) runs
  unfolding interval_missed begin finish
  runs-IsMissed [] none s q = subst (All (IsMissed step slack [])) (some-injective q) tt
  runs-IsMissed [] (some created) s q =
      subst (All (IsMissed step slack [])) (some-injective q) (never_fired-IsMissed created)
  runs-IsMissed (e ∷ es) created s q =
      elim (Option-cases
        (rounds step now slack (fuel_for step now slack (e ∷ es)) (begin step now slack e es))) [
          | inl f ↦ absurd (cc (rw (f, interval_missed) at q))
          | inr (l, f) ↦
              let start : IsHonest step now slack (e ∷ es) wide (begin step now slack e es) =
                record {
                  past = [];
                  whole = refl;
                  before = tt;
                  sorted = s;
                  reported = tt;
                  open_run = λ k low. absurd (omega (arith, low));
                  next_run = inl refl;
                } in
              let h =
                rounds-IsHonest step now slack (e ∷ es) wide (fuel_for step now slack (e ∷ es))
                  (begin step now slack e es) start f in
              subst (All (IsMissed step slack (e ∷ es)))
                (some-injective (rw (f, interval_missed) at q))
                (close_run-IsMissed step now slack (e ∷ es) wide true l h)
        ]

  -- Missed fires of an interval are no false alarms: on sorted fires, and with a slack below the
  -- step, the detection returns, and each run that it reports has a fire at least, and none of the
  -- fires it counts had a real fire within the slack.
  pub interval_missed-IsMissed :
      (execs : List ℕ) (created : Option ℕ)
      → IsSorted execs
      → (runs : List Run) × (interval_missed step now slack execs created ≡ some runs)
        × All (IsMissed step slack execs) runs
  interval_missed-IsMissed execs created s =
      let (runs, q) = interval_missed_ends step now slack (omega (arith, wide)) execs created in
      (runs, q, runs-IsMissed execs created s q)
