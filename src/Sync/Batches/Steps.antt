-- ===== src/Sync/Batches/Steps.antt =====
-- One round of the loop of build_batches: it raises, yields a batch, or joins the record.
use hermes_flight_recorder.Base.{Bool-cases, ℤ, String, ◌≡◌, inl, inr, true, false, List, [], ◌∷◌}
use hermes_flight_recorder.Value.{Fields}
use hermes_flight_recorder.Result.{Error, ok, err, Result-cases}
use hermes_flight_recorder.Sync.Batches.{
  record_json, preserialized, Limits, Builder, admit, is_full, restart, join, emit, build_from,
}

pub data Round (l : Limits) (b : Builder) (r : Fields) (rs : List Fields) : Type 0 where
  raises : (e : Error) → admit b r ≡ err e → build_from l b (r ∷ rs) ≡ ([], err e) → Round l b r rs
  yields :
      (stamp : String × ℤ)
      → admit b r ≡ ok stamp
      → is_full l b (record_json r) ≡ true
      → build_from l b (r ∷ rs)
        ≡ emit (preserialized b.current b.current_parts) (build_from l (restart r stamp) rs)
      → Round l b r rs
  joins :
      (stamp : String × ℤ)
      → admit b r ≡ ok stamp
      → is_full l b (record_json r) ≡ false
      → build_from l b (r ∷ rs) ≡ build_from l (join b r stamp) rs
      → Round l b r rs

pub round : (l : Limits) (b : Builder) (r : Fields) (rs : List Fields) → Round l b r rs
unfolding build_from
round l b r rs = elim (Result-cases (admit b r)) [
  | inr (e, a) ↦ raises e a (rw (a, build_from))
  | inl (stamp, a) ↦ elim (Bool-cases (is_full l b (record_json r))) [
    | inl f ↦ yields stamp a f (rw (a, build_from) (rw f))
    | inr f ↦ joins stamp a f (rw (a, build_from) (rw f))
  ]
]
