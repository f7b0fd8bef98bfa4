-- ===== src/Reconcile/Gaps/Sound.antt =====
-- A sound outbox has no gap.
use hermes_flight_recorder.Base.{
  ltb, Bool-cases, pos, pos_part, le_int, ℕ, zero, suc, ◌≤◌, String, ◌≡◌, refl, ap, ◌∙◌, inl, inr,
  true, not, Option, List, [], ◌∷◌, map, arith,
}
use hermes_flight_recorder.Result.{ok}
use hermes_flight_recorder.Outbox.State.{Event, Tombstone, Outbox}
use hermes_flight_recorder.Outbox.Sound.{IsSound, count_events, count_tombstones}
use hermes_flight_recorder.Outbox.Append.Records.{Call, Scan}
use hermes_flight_recorder.Capture.{Collector}
use hermes_flight_recorder.Reconcile.{ReconcilePass}
use hermes_flight_recorder.Reconcile.Gaps.{
  Gap, range, sequence_gaps, emit_gaps, detect_sequence_gaps,
}
use hermes_flight_recorder.Reconcile.Gaps.Missing.{
  has, is_stored, sequence_gaps-missing, All-range, keep-none,
}

has-events :
    (n : ℕ) (es : List Event)
    → has n (map (λ (e : Event). e.producer_sequence) es) ≡ ltb 0 (count_events n es)
unfolding count_events
has-events n [] = refl
has-events n (e ∷ es) = ground (arith, has-events n es)

has-tombstones :
    (n : ℕ) (ts : List Tombstone)
    → has n (map (λ (t : Tombstone). t.producer_sequence) ts) ≡ ltb 0 (count_tombstones n ts)
unfolding count_tombstones
has-tombstones n [] = refl
has-tombstones n (t ∷ ts) = ground (arith, has-tombstones n ts)

is_stored-IsSound :
    (o : Outbox) → IsSound o → (n : ℕ) → 1 ≤ n → n ≤ o.high_water → is_stored o n ≡ true
is_stored-IsSound o s n low high =
    let es = has-events n o.events in
    let ts = has-tombstones n o.tombstones in
    let once = s.unbroken n in ground (arith, es, ts, once)

missing-[] : (gs : List Gap) → map (λ (g : Gap). g.missing_sequence) gs ≡ [] → gs ≡ []
missing-[] [] h = refl
missing-[] (g ∷ gs) h = cc

pub sequence_gaps-IsSound : (o : Outbox) → IsSound o → sequence_gaps o.high_water o ≡ []
sequence_gaps-IsSound o s = missing-[] (sequence_gaps o.high_water o) (
    sequence_gaps-missing o.high_water o
    ∙ keep-none _ (range 1 o.high_water) (
        All-range _ 1 o.high_water
          (λ n h k. let here = is_stored-IsSound o s n h (omega arith) in ap not here)))

-- The recorder never reports a loss that did not happen: on a sound outbox, with its own high water
-- and whatever the limit of findings, sequence-gap detection returns, appends nothing and counts
-- nothing.
pub detect_sequence_gaps-IsSound :
    (calls : ℕ → Call) (scans : ℕ → Scan) (capture_horizon : Option ℕ) (ctx : ReconcilePass)
    (installation_id : String) (c : Collector)
    → IsSound c.process.outbox
    → detect_sequence_gaps calls scans capture_horizon ctx installation_id
        c.process.outbox.high_water c
      ≡ (ok tt, c)
unfolding detect_sequence_gaps emit_gaps
detect_sequence_gaps-IsSound calls scans capture_horizon ctx installation_id c s =
    elim (Bool-cases (le_int ctx.config.sequence_gap_limit (pos 0))) [
      | inl e ↦ rw (e, detect_sequence_gaps) refl
      | inr e ↦
          rw (e, detect_sequence_gaps, sequence_gaps-IsSound c.process.outbox s)
            (ends (pos_part ctx.config.sequence_gap_limit))
    ]
  where
    ends :
        (left : ℕ)
        → emit_gaps calls scans capture_horizon ctx installation_id left [] c ≡ (ok tt, c)
    ends zero = refl
    ends (suc left) = refl
