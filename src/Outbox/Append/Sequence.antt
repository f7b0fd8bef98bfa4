-- ===== src/Outbox/Append/Sequence.antt =====
-- append keeps one unbroken sequence.
use hermes_flight_recorder.Base.{
  leb, eqb, Bool-cases, length, pos, ℕ, suc, ◌+◌, String, ◌≡◌, refl, sym, ap, ◌∙◌, subst, inl, inr,
  false, Option, none, some, List, [], ◌∷◌, arith,
}
use hermes_flight_recorder.Value.{integer, Fields, object, put, update}
use hermes_flight_recorder.Result.{Result, ok, require, ok-injective, Result-cases}
use hermes_flight_recorder.Exec.{lift, >>=-eq-ok}
use hermes_flight_recorder.Envelope.{validate}
use hermes_flight_recorder.Envelope.Spec.{validate-eq-ok}
use hermes_flight_recorder.Sync.Batches.{max_ingest_batch_bytes, singleton_batch_size}
use hermes_flight_recorder.Outbox.State.{Outbox}
use hermes_flight_recorder.Outbox.Insert.{insert_event}
use hermes_flight_recorder.Outbox.Sound.{IsSoundTo, IsSound, insert_event-IsSoundTo}
use hermes_flight_recorder.Value.Json.{Bytes}
use hermes_flight_recorder.Outbox.Append.Records.{
  Rows, plan_content, Call, Scan, finding_record, sealed_fields,
}
use hermes_flight_recorder.Outbox.Append.Numbering.{
  HasSequence, Numbered, HasSequence-put, HasSequence-sealed, plan_content-Numbered,
}
use hermes_flight_recorder.Outbox.Append.{
  Process, plan_rows, check_record, insert, insert_chunks, insert_finding, set_high_water,
  append_new, current_key,
}

-- The tables of events are the same.
abbrev pub SameTables : Process → Process → Type 0
SameTables p p' =
    (p'.outbox.events ≡ p.outbox.events)
    × (p'.outbox.tombstones ≡ p.outbox.tombstones)
    × (p'.outbox.high_water ≡ p.outbox.high_water)

IsSoundTo-same :
    (k : ℕ) (p p' : Process) → SameTables p p' → IsSoundTo k p.outbox → IsSoundTo k p'.outbox
IsSoundTo-same k p p' (e, t, w) s = record {
  ordered = rw e s.ordered;
  bounded = rw e s.bounded;
  stamped = rw e s.stamped;
  valid = rw e s.valid;
  unbroken = λ i. rw (e, t) (s.unbroken i);
}

pub lift-eq-ok :
    {A : Type 0} (r : Result A) (p : Process) {a : A} {p' : Process}
    → lift r p ≡ (ok a, p')
    → (r ≡ ok a) × (p ≡ p')
lift-eq-ok r p h = (ap (λ (x : Result _ × Process). x.0) h, ap (λ (x : Result _ × Process). x.1) h)

pub current_key-SameTables :
    (c : Call) (p : Process) {version : String} {p' : Process}
    → current_key c p ≡ (ok version, p')
    → SameTables p p'
unfolding current_key
current_key-SameTables c p h = ground arith

pub check_record-valid :
    (r : Fields) (p : Process) {u : Unit {0}} {p' : Process}
    → check_record r p ≡ (ok u, p')
    → (validate false (object r) ≡ ok r) × (p ≡ p')
unfolding check_record
check_record-valid r p h =
    let (checked, p₁, e₁, h₁) = >>=-eq-ok (lift (validate false (object r))) _ p h in
    let (v, q₁) = lift-eq-ok (validate false (object r)) p e₁ in
    let (_, q₂) =
      lift-eq-ok (require (leb (singleton_batch_size r) max_ingest_batch_bytes) _) p₁ h₁ in
    (validate-eq-ok false r v, q₁ ∙ q₂)

pub insert-eq-ok :
    (r : Fields) (dedup_key : Option String) (p : Process) {u : Unit {0}} {p' : Process}
    → insert r dedup_key p ≡ (ok u, p')
    → (o : Outbox) × (insert_event r dedup_key p.outbox ≡ ok o) × (p'.outbox ≡ o)
unfolding insert
insert-eq-ok r dedup_key p h = elim (Result-cases (insert_event r dedup_key p.outbox)) [
  | inr (e, f) ↦ absurd (cc (rw (f, insert) at h))
  | inl (o, f) ↦ (o, f, cc (rw (f, insert) at h))
]

insert-IsSoundTo :
    (k : ℕ) (r : Fields) (dedup_key : Option String) (p : Process) {u : Unit {0}} {p' : Process}
    → insert r dedup_key p ≡ (ok u, p')
    → HasSequence (k + 1) r
    → validate false (object r) ≡ ok r
    → IsSoundTo k p.outbox
    → IsSoundTo (k + 1) p'.outbox × (p'.outbox.high_water ≡ p.outbox.high_water)
insert-IsSoundTo k r dedup_key p h q v s =
    let (o, f, same) = insert-eq-ok r dedup_key p h in
    let (s', w) = insert_event-IsSoundTo k r dedup_key p.outbox f q v s in
    (subst (IsSoundTo (k + 1)) (sym same) s', ap (λ (x : Outbox). x.high_water) same ∙ w)

insert_chunks-IsSoundTo :
    (k : ℕ) (rs : List Fields) (p : Process) {u : Unit {0}} {p' : Process}
    → insert_chunks rs p ≡ (ok u, p')
    → Numbered k rs
    → IsSoundTo k p.outbox
    → IsSoundTo (k + length rs) p'.outbox × (p'.outbox.high_water ≡ p.outbox.high_water)
unfolding insert_chunks
insert_chunks-IsSoundTo k [] p h n s =
    let same = ap (λ (x : Result (Unit {0}) × Process). x.1.outbox) h in
    let start : k ≡ k + 0 = omega arith in
    (
      subst (λ (x : Outbox). IsSoundTo (k + 0) x) same (subst (λ j. IsSoundTo j p.outbox) start s),
      ap (λ (x : Outbox). x.high_water) (sym same),
    )
insert_chunks-IsSoundTo k (r ∷ rs) p {p' = p'} h n s =
    let (u₁, p₁, e₁, h₁) = >>=-eq-ok (check_record r) _ p h in
    let (v, q₁) = check_record-valid r p e₁ in
    let (u₂, p₂, e₂, h₂) = >>=-eq-ok (insert r none) _ p₁ h₁ in
    let (s₂, w₂) =
      insert-IsSoundTo k r none p₁ e₂ n.0 v (subst (λ (x : Process). IsSoundTo k x.outbox) q₁ s) in
    let (s₃, w₃) = insert_chunks-IsSoundTo (k + 1) rs p₂ h₂ n.1 s₂ in
    let more : k + 1 + length rs ≡ k + suc (length rs) = omega arith in
    (
      subst (λ j. IsSoundTo j p'.outbox) more s₃,
      w₃ ∙ w₂ ∙ ap (λ (x : Process). x.outbox.high_water) (sym q₁),
    )

-- The rows to insert follow the high water.
pub record IsPlanned (p : Process) (rows : Rows) (p' : Process) : Type 0 where
  pub tables : SameTables p p'
  pub chunks : Numbered p.outbox.high_water rows.chunks
  pub parent : HasSequence (p.outbox.high_water + length rows.chunks + 1) rows.parent

pub plan_rows-IsPlanned :
    (c : Call) (r : Fields) (content : Option Bytes) (p : Process) {rows : Rows} {p' : Process}
    → plan_rows c r content p ≡ (ok rows, p')
    → IsPlanned p rows p'
unfolding plan_rows
plan_rows-IsPlanned c r none p {rows} h =
    let w = p.outbox.high_water in
    let same : (record { chunks = []; parent = put "producer_sequence" (integer (pos (w + 1))) r })
        ≡ rows =
      cc in
    let stay : p ≡ _ = ap (λ (x : Result Rows × Process). x.1) h in
    let zero_more : w + 1 ≡ w + 0 + 1 = omega arith in
    record {
      tables = subst (SameTables p) stay (refl, refl, refl);
      chunks = subst (λ (x : Rows). Numbered w x.chunks) same tt;
      parent =
          subst (λ (x : Rows). HasSequence (w + length x.chunks + 1) x.parent) same
            (subst (λ n. HasSequence n (put "producer_sequence" (integer (pos (w + 1))) r))
              zero_more (HasSequence-put (w + 1) r));
    }
plan_rows-IsPlanned c r (some raw) p h =
    let w = p.outbox.high_water in
    let numbered = put "producer_sequence" (integer (pos (w + 1))) r in
    let (version, p₁, e₁, h₁) = >>=-eq-ok (current_key c) _ p h in
    let (planned, stay) = lift-eq-ok (plan_content c version numbered raw w) p₁ h₁ in
    let (chunks, parent) =
      plan_content-Numbered c version numbered raw w planned (HasSequence-put (w + 1) r) in
    record {
      tables = subst (SameTables p) stay (current_key-SameTables c p e₁);
      chunks = chunks;
      parent = parent;
    }

insert_finding-IsSoundTo :
    (c : Call) (scan : Scan) (parent : Fields) (k : ℕ) (p : Process) {final : ℕ} {p' : Process}
    → insert_finding c scan parent k p ≡ (ok final, p')
    → IsSoundTo k p.outbox
    → IsSoundTo final p'.outbox × (p'.outbox.high_water ≡ p.outbox.high_water)
unfolding insert_finding
insert_finding-IsSoundTo c scan parent k p {final} {p'} h s =
    elim (Bool-cases (eqb scan.match_count 0)) [
      | inl f ↦
          let q : Path (Result ℕ × Process) (ok k, p) (ok final, p') =
            rw (f, insert_finding) at h in
          let same : k ≡ final = ok-injective (ap (λ (x : Result ℕ × Process). x.0) q) in
          let stay : p ≡ p' = ap (λ (x : Result ℕ × Process). x.1) q in
          (
            subst (λ (x : Process). IsSoundTo final x.outbox) stay
                (subst (λ j. IsSoundTo j p.outbox) same s),
            ap (λ (x : Process). x.outbox.high_water) (sym stay),
          )
      | inr f ↦
          let h₀ = rw (f, insert_finding) at h in
          let (finding, p₁, e₁, h₁) = >>=-eq-ok (lift (finding_record c scan parent)) _ p h₀ in
          let numbered = put "producer_sequence" (integer (pos (k + 1))) finding in
          let (version, p₂, e₂, h₂) = >>=-eq-ok (current_key c) _ p₁ h₁ in
          let sealed =
            update numbered (sealed_fields version (c.seal_finding version scan.content)) in
          let (u₁, p₃, e₃, h₃) = >>=-eq-ok (check_record sealed) _ p₂ h₂ in
          let (u₂, p₄, e₄, h₄) = >>=-eq-ok (insert sealed none) _ p₃ h₃ in
          let (_, q₁) = lift-eq-ok (finding_record c scan parent) p e₁ in
          let tables = current_key-SameTables c p₁ e₂ in
          let (v, q₃) = check_record-valid sealed p₂ e₃ in
          let s₁ = subst (λ (x : Process). IsSoundTo k x.outbox) q₁ s in
          let s₂ =
            subst (λ (x : Process). IsSoundTo k x.outbox) q₃ (IsSoundTo-same k p₁ p₂ tables s₁) in
          let (s₄, w₄) =
            insert-IsSoundTo k sealed none p₃ e₄
              (HasSequence-sealed (k + 1) version (c.seal_finding version scan.content) numbered
                (HasSequence-put (k + 1) finding))
              v s₂ in
          let same : k + 1 ≡ final = ok-injective (ap (λ (x : Result ℕ × Process). x.0) h₄) in
          let stay : p₄ ≡ p' = ap (λ (x : Result ℕ × Process). x.1) h₄ in
          (
            subst (λ (x : Process). IsSoundTo final x.outbox) stay
                (subst (λ j. IsSoundTo j p₄.outbox) same s₄),
            ap (λ (x : Process). x.outbox.high_water) (sym stay)
                ∙ w₄
                ∙ ap (λ (x : Process). x.outbox.high_water) (sym q₃)
                ∙ tables.2
                ∙ ap (λ (x : Process). x.outbox.high_water) (sym q₁),
          )
    ]

-- A new record and all that goes with it keep the sequence unbroken.
pub append_new-IsSound :
    (c : Call) (r : Fields) (content : Option Bytes) (dedup_key : Option String) (scan : Scan)
    (p : Process) {stored : Fields} {p' : Process}
    → append_new c r content dedup_key scan p ≡ (ok stored, p')
    → IsSound p.outbox
    → IsSound p'.outbox
unfolding append_new set_high_water
append_new-IsSound c r content dedup_key scan p {p' = p'} h s =
    let w = p.outbox.high_water in
    let (rows, p₁, e₁, h₁) = >>=-eq-ok (plan_rows c r content) _ p h in
    let planned = plan_rows-IsPlanned c r content p e₁ in
    let (u₁, p₂, e₂, h₂) = >>=-eq-ok (check_record rows.parent) _ p₁ h₁ in
    let (v, q₂) = check_record-valid rows.parent p₁ e₂ in
    let (u₂, p₃, e₃, h₃) = >>=-eq-ok (insert_chunks rows.chunks) _ p₂ h₂ in
    let s₁ =
      subst (λ (x : Process). IsSoundTo w x.outbox) q₂ (IsSoundTo-same w p p₁ planned.tables s) in
    let (s₃, _) = insert_chunks-IsSoundTo w rows.chunks p₂ e₃ planned.chunks s₁ in
    let (u₃, p₄, e₄, h₄) = >>=-eq-ok (insert rows.parent dedup_key) _ p₃ h₃ in
    let (s₄, _) =
      insert-IsSoundTo (w + length rows.chunks) rows.parent dedup_key p₃ e₄ planned.parent v s₃ in
    let (final, p₅, e₅, h₅) =
      >>=-eq-ok (insert_finding c scan rows.parent (w + length rows.chunks + 1)) _ p₄ h₄ in
    let (s₅, _) =
      insert_finding-IsSoundTo c scan rows.parent (w + length rows.chunks + 1) p₄ e₅ s₄ in
    let stay : record p₅ { outbox = record p₅.outbox { high_water = final } } ≡ p' =
      ap (λ (x : Result Fields × Process). x.1) h₅ in
    subst (λ (x : Process). IsSound x.outbox) stay
      record {
        ordered = s₅.ordered;
        bounded = s₅.bounded;
        stamped = s₅.stamped;
        valid = s₅.valid;
        unbroken = s₅.unbroken;
      }
