-- ===== src/Reconcile/Cron/Fuel.antt =====
-- The loop over the fires of an interval ends.
use hermes_flight_recorder.Base.{
  leb, Bool-cases, length, ℕ, zero, suc, ◌+◌, ◌-◌, ◌*◌, ◌≤◌, ◌<◌, ◌≡◌, refl, subst, ◌⊎◌, inl, inr,
  Option, none, some, List, [], ◌∷◌, arith,
}
use hermes_flight_recorder.Reconcile.Cron.{
  Run, Loop, Round, again, stop, from_window, miss, meet, round, rounds, fuel_for, begin, finish,
  interval_missed,
}

from_window-length :
    (value slack : ℕ) (es : List ℕ) → length (from_window value slack es) ≤ length es
unfolding from_window
from_window-length value slack [] = omega arith
from_window-length value slack (e ∷ es) = ground (arith, from_window-length value slack es)

less-miss :
    (p n expected step : ℕ)
    → 1 ≤ step
    → expected ≤ n
    → p + (n + 1 - (expected + step)) < p + (n + 1 - expected)
less-miss p n expected step h k = omega arith

times-less : (k m n : ℕ) → k + 1 ≤ m → k * n + n ≤ m * n
times-less k m n h =
    let (d, e) : (d : ℕ) × (m ≡ k + 1 + d) = (m - (k + 1), omega arith) in rw e (omega arith)

less-meet : (k m n x a : ℕ) → k + 1 ≤ m → k * (n + 2) + (n + 1 - x) < m * (n + 2) + a
less-meet k m n x a h = let t = times-less k m (n + 2) h in less (k * (n + 2)) (m * (n + 2)) t
  where
    less : (p q : ℕ) → p + (n + 2) ≤ q → p + (n + 1 - x) < q + a
    less p q t = omega arith

enough : (k n x : ℕ) → k * (n + 2) + (n + 1 - x) < (k + 1) * (n + 2)
enough k n x = let h = less-meet k (k + 1) n x 0 (omega arith) in omega (arith, h)

times_mono : (k m n : ℕ) → k ≤ m → k * n ≤ m * n
times_mono k m n h = let (d, e) : (d : ℕ) × (m ≡ k + d) = (m - k, omega arith) in rw e (omega arith)

less_trans : (x p q a : ℕ) → x < p + a → p ≤ q → x < q + a
less_trans x p q a h k = omega arith

pub Round-cases : (r : Round) → ((l : Loop) × (r ≡ again l)) ⊎ ((l : Loop) × (r ≡ stop l))
Round-cases (again l) = inl (l, refl)
Round-cases (stop l) = inr (l, refl)

module _ (step now slack : ℕ) (positive : 1 ≤ step) where
  -- The fires that are left, and the time that is left, in rounds
  abbrev measure : List ℕ → ℕ → ℕ
  measure rest expected = length rest * (now + slack + 2) + (now + slack + 1 - expected)

  -- A round that does not end has less left.
  abbrev Decreases : List ℕ → ℕ → Round → Type 0
  Decreases rest expected (again l) = measure l.rest l.expected < measure rest expected
  Decreases rest expected (stop l) = Unit

  miss-Decreases :
      (l : Loop) → l.expected ≤ now + slack → Decreases l.rest l.expected (miss step now slack l)
  unfolding miss
  miss-Decreases l h = elim (Bool-cases (leb (l.expected + slack) now)) [
    | inl q ↦
        rw (q, miss)
          (less-miss (length l.rest * (now + slack + 2)) (now + slack) l.expected step positive h)
    | inr q ↦ rw (q, miss) tt
  ]

  Decreases-longer :
      (rest longer : List ℕ) (expected : ℕ) (r : Round)
      → length rest ≤ length longer
      → Decreases rest expected r
      → Decreases longer expected r
  Decreases-longer rest longer expected (again l) h d =
      let t = times_mono (length rest) (length longer) (now + slack + 2) h in
      less_trans (measure l.rest l.expected) (length rest * (now + slack + 2))
        (length longer * (now + slack + 2)) (now + slack + 1 - expected) d t
  Decreases-longer rest longer expected (stop l) h d = tt

  meet-Decreases :
      (rest : List ℕ) (l : Loop)
      → length rest ≤ length l.rest
      → l.expected ≤ now + slack
      → Decreases l.rest l.expected (meet step now slack rest (record l { rest = rest }))
  unfolding meet
  meet-Decreases [] l k h =
      Decreases-longer [] l.rest l.expected (miss step now slack (record l { rest = [] })) k
        (miss-Decreases (record l { rest = [] }) h)
  meet-Decreases (e ∷ es) l k h =
      let k' : length es + 1 ≤ length l.rest = omega (arith, k) in
      elim (Bool-cases (leb e (l.expected + slack))) [
        | inl q ↦
            rw (q, meet)
              (less-meet (length es) (length l.rest) (now + slack) (e + step)
                (now + slack + 1 - l.expected) k')
        | inr q ↦
            rw (q, meet)
              (Decreases-longer (e ∷ es) l.rest l.expected
                (miss step now slack (record l { rest = e ∷ es })) k
                (miss-Decreases (record l { rest = e ∷ es }) h))
      ]

  round-Decreases : (l : Loop) → Decreases l.rest l.expected (round step now slack l)
  unfolding round
  round-Decreases l = elim (Bool-cases (leb l.expected (now + slack))) [
    | inl q ↦
        rw (q, round)
          (meet-Decreases (from_window l.expected slack l.rest) l
            (from_window-length l.expected slack l.rest) (ground arith))
    | inr q ↦ rw (q, round) tt
  ]

  -- With more fuel than what is left, the loop ends.
  rounds-end :
      (fuel : ℕ) (l : Loop)
      → measure l.rest l.expected < fuel
      → (l' : Loop) × (rounds step now slack fuel l ≡ some l')
  unfolding rounds
  rounds-end zero l h = absurd (omega (arith, h))
  rounds-end (suc fuel) l h = elim (Round-cases (round step now slack l)) [
    | inr (l', q) ↦ (l', rw (q, rounds) refl)
    | inl (l', q) ↦
        let less : measure l'.rest l'.expected < measure l.rest l.expected =
          subst (Decreases l.rest l.expected) q (round-Decreases l) in
        let (l₂, e) = rounds-end fuel l' (omega (arith, h, less)) in (l₂, rw (q, rounds) e)
  ]

  -- The loop over the fires of an interval ends: with a step of at least one microsecond and any
  -- fires, creation time, slack and clock, the fuel it is given is enough, and it returns its runs.
  pub interval_missed_ends :
      (execs : List ℕ) (created : Option ℕ)
      → (runs : List Run) × (interval_missed step now slack execs created ≡ some runs)
  unfolding interval_missed fuel_for begin
  interval_missed_ends [] none = ([], refl)
  interval_missed_ends [] (some created) = (_, refl)
  interval_missed_ends (e ∷ es) created =
      let (l, q) =
        rounds-end (fuel_for step now slack (e ∷ es)) (begin step now slack e es)
          (enough (length (e ∷ es)) (now + slack) (e + step)) in
      (finish step now slack l, rw (q, interval_missed) refl)
