-- ===== src/Reconcile/Gaps.antt =====
-- stored_sequences (hermes_flight_recorder/collector/outbox.py) and _detect_sequence_gaps
-- (hermes_flight_recorder/collector/reconcile.py). The loops over pairs of boundaries and over the
-- numbers between them run over one list of gaps.
pub mod Missing
pub mod Sound
use hermes_flight_recorder.Base.{
  ltb, leb, eqb, if◌then◌else◌, ltb→lt, lt→ltb, le→ltb, leb→le, Bool-cases, Option-cases, length,
  take, drop, concat, All, any, keep, length-append, take-append-drop, length-take-le, All-append,
  All-left, All-right, All-map, All-apply, keep-true, keep-false, cons-injective, ℤ, pos, negsuc,
  pos_part, neg_part, ◌+ℤ◌, ◌-ℤ◌, ◌≤ℤ◌, ◌<ℤ◌, le_int, lt_int, eq_int, max_int, eq_of_parts,
  <ℤ_trans, str_nat, int_nat, int_nat-str_nat, str_int, int_text, int_text-str_int, ℕ, zero, suc,
  ◌+◌, ◌-◌, ◌*◌, ◌/◌, ◌%◌, ◌^◌, ◌≤◌, ◌<◌, compare, Ordering, min, max, Char, code, String, ◌≡◌,
  refl, sym, ap, ◌∙◌, subst, fun_ext, ◌≢◌, ◌↔◌, ◌⊎◌, inl, inr, Bool, true, false, ◌&&◌, ◌||◌, not,
  Option, none, some, List, [], ◌∷◌, ◌++◌, map, append-nil, append_assoc, arith, ◌==◌, eq_iff,
  eq_refl,
}
use Prim.Native.String.{◌++◌ as text_append}
use hermes_flight_recorder.Value.{Value, text, integer, Fields, end, field}
use hermes_flight_recorder.Result.{Result, ok, err}
use hermes_flight_recorder.Exec.{Exec, pure}
use hermes_flight_recorder.Outbox.State.{Event, Tombstone, Outbox}
use hermes_flight_recorder.Outbox.Append.{Process}
use hermes_flight_recorder.Outbox.Append.Records.{Call, Scan}
use hermes_flight_recorder.Capture.{Collector, no_links}
use hermes_flight_recorder.Reconcile.{ReconcilePass, Finding, emit_finding}

-- UNION ... ORDER BY producer_sequence
pub insert_distinct : ℕ → List ℕ → List ℕ
insert_distinct n [] = n ∷ []
insert_distinct n (m ∷ ms) =
    if ltb n m then n ∷ m ∷ ms else if eqb n m then m ∷ ms else m ∷ insert_distinct n ms

pub order_distinct : List ℕ → List ℕ
unfolding insert_distinct
order_distinct [] = []
order_distinct (n ∷ ns) = insert_distinct n (order_distinct ns)

-- producer_sequence BETWEEN 1 AND through_sequence
abbrev pub is_between : ℕ → ℕ → Bool
is_between through n = leb 1 n && leb n through

pub all_sequences : Outbox → List ℕ
all_sequences o =
    map (λ (e : Event). e.producer_sequence) o.events
    ++ map (λ (t : Tombstone). t.producer_sequence) o.tombstones

-- stored_sequences(installation_id, through_sequence=...)
unfoldable pub stored_sequences : ℕ → Outbox → List ℕ
unfolding order_distinct all_sequences
stored_sequences through o = order_distinct (keep (is_between through) (all_sequences o))

pub record Gap : Type 0 where
  pub missing_sequence : ℕ
  pub prev_sequence : ℕ
  pub next_sequence : ℕ

-- `count` numbers from `start`
pub range : ℕ → ℕ → List ℕ
range start zero = []
range start (suc count) = start ∷ range (start + 1) count

pub gap_at : ℕ → ℕ → ℕ → Gap
gap_at prev next n = record { missing_sequence = n; prev_sequence = prev; next_sequence = next }

-- range(prev_seq + 1, next_seq)
pub gaps_within : ℕ → ℕ → List Gap
unfolding range gap_at
gaps_within prev next = map (gap_at prev next) (range (prev + 1) (next - (prev + 1)))

-- zip(boundaries, boundaries[1:])
pub gaps_between : ℕ → List ℕ → List Gap
unfolding gaps_within
gaps_between prev [] = []
gaps_between prev (next ∷ rest) = gaps_within prev next ++ gaps_between next rest

-- boundaries[0], then the stored sequences, then the end
unfoldable pub sequence_gaps : ℕ → Outbox → List Gap
unfolding gaps_between
sequence_gaps high_water o = gaps_between 0 (stored_sequences high_water o ++ (high_water + 1) ∷ [])

unfoldable pub gap_finding : ReconcilePass → String → Gap → Finding
gap_finding ctx installation_id g = record {
  event_type = "reconcile.gap_detected";
  occurred_at = ctx.when;
  correlation_id = installation_id;
  payload = field "gap_kind" (text "sequence") (
      field "missing_sequence" (integer (pos g.missing_sequence)) (
        field "prev_sequence" (integer (pos g.prev_sequence))
          (field "next_sequence" (integer (pos g.next_sequence)) end)));
  dedup_key =
      text_append "reconcile:seq:"
        (text_append installation_id (text_append ":" (str_nat g.missing_sequence)));
  links = no_links;
  partial = false;
}

module _ (calls : ℕ → Call) (scans : ℕ → Scan) (capture_horizon : Option ℕ) (ctx : ReconcilePass)
    (installation_id : String) where
  -- The loops, with `left` findings until finding_limit
  pub emit_gaps : ℕ → List Gap → Exec Collector Unit
  emit_gaps zero gs c = (ok tt, c)
  emit_gaps (suc left) [] c = (ok tt, c)
  emit_gaps (suc left) (g ∷ gs) c =
      let (answer, c') =
        emit_finding calls scans capture_horizon (gap_finding ctx installation_id g) c in
      elim answer [ err e ↦ (err e, c') | ok _ ↦ emit_gaps left gs c' ]

  -- _detect_sequence_gaps(ctx, installation_id, high_water)
  unfoldable pub detect_sequence_gaps : ℕ → Exec Collector Unit
  unfolding emit_gaps sequence_gaps gap_finding
  detect_sequence_gaps high_water c =
      if le_int ctx.config.sequence_gap_limit (pos 0)
      then (ok tt, c)
      else emit_gaps (pos_part ctx.config.sequence_gap_limit)
          (sequence_gaps high_water c.process.outbox) c
