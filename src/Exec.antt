-- ===== src/Exec.antt =====
-- Methods that change an object and may raise: what was written before a raise stays written.
use hermes_flight_recorder.Base.{◌≡◌, refl, ap}
use hermes_flight_recorder.Result.{Result, ok, err}

abbrev pub Exec : Type 0 → Type 0 → Type 0
Exec S A = S → Result A × S

module _ {S A : Type 0} where
  abbrev pub pure : A → Exec S A
  pure a s = (ok a, s)

  abbrev pub lift : Result A → Exec S A
  lift r s = (r, s)

module _ {S A B : Type 0} where
  abbrev pub continue : Result A → (A → Exec S B) → Exec S B
  continue (ok a) f s = f a s
  continue (err e) f s = (err e, s)

  infixl 10 ◌>>=◌ ◌>>◌
  abbrev pub ◌>>=◌ : Exec S A → (A → Exec S B) → Exec S B
  ◌>>=◌ method next before = let (answer, after) = method before in continue answer next after

  abbrev pub ◌>>◌ : Exec S A → Exec S B → Exec S B
  method >> next = method >>= λ _. next

  -- A block that returns ran its first part to a value.
  pub >>=-eq-ok :
      (m : Exec S A) (f : A → Exec S B) (s : S) {b : B} {s'' : S}
      → (m >>= f) s ≡ (ok b, s'')
      → (a : A) × (s' : S) × (m s ≡ (ok a, s')) × (f a s' ≡ (ok b, s''))
  >>=-eq-ok m f s h = continue-eq-ok (m s).0 (m s).1 refl h
    where
      continue-eq-ok :
          (r : Result A) (t : S)
          → m s ≡ (r, t)
          → {b : B} {s'' : S} → continue r f t ≡ (ok b, s'')
          → (a : A) × (s' : S) × (m s ≡ (ok a, s')) × (f a s' ≡ (ok b, s''))
      continue-eq-ok (ok a) t q h = (a, t, q, h)
      continue-eq-ok (err e) t q h = absurd (cc h)

  -- What both parts keep, the block keeps, however it ends.
  pub >>=-keeps :
      (I : S → Type 0) (m : Exec S A) (f : A → Exec S B)
      → ((s : S) → I s → I (m s).1)
      → ((a : A) (s : S) → I s → I (f a s).1)
      → (s : S) → I s
      → I ((m >>= f) s).1
  >>=-keeps I m f first later s h = after (m s).0 (m s).1 (first s h)
    where
      after : (r : Result A) (t : S) → I t → I (continue r f t).1
      after (ok a) t k = later a t k
      after (err e) t k = k

  -- A first part that returns hands over to the next.
  pub >>=-ok :
      (m : Exec S A) (f : A → Exec S B) (s : S) {a : A} {s' : S}
      → m s ≡ (ok a, s')
      → (m >>= f) s ≡ f a s'
  >>=-ok m f s {a} {s'} q = ap (λ (x : Result A × S). continue x.0 f x.1) q
