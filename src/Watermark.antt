-- ===== src/Watermark.antt =====
-- Watermarks of the incremental scans (collector/watermark.py), over the cursors of the outbox. A
-- source table is a list of rows with the column that the scan is ordered by.
use hermes_flight_recorder.Base.{
  Any, Among, All-Among, Any-keep, All-apply, leb, ◌⊎◌, Bool-cases, Option-cases, All, keep,
  All-map, ℤ, pos, negsuc, ◌-ℤ◌, ◌≤ℤ◌, ◌<ℤ◌, le_int, lt_int, max_int, str_int, int_text,
  int_text-str_int, ℕ, ◌≤◌, max, String, ◌≡◌, refl, sym, ap, ◌∙◌, subst, inl, inr, Bool, true, ◌&&◌,
  Option, none, some, List, [], ◌∷◌, arith,
}
use hermes_flight_recorder.Outbox.State.{
  Outbox, get_cursor, set_cursor, get_cursor-set_cursor, order_by, insert_by,
}

pub record Watermark : Type 0 where
  pub name : String
  pub overlap : ℤ

-- int(raw), 0 where there is no value or it is not a number
unfoldable pub mark_of : Option String → ℤ
mark_of none = pos 0
mark_of (some raw) = elim (int_text raw) [ none ↦ pos 0 | some value ↦ max_int (pos 0) value ]

-- read()
unfoldable pub read : Watermark → Outbox → ℤ
unfolding get_cursor mark_of
read w o = mark_of (get_cursor w.name o)

-- lower_bound()
unfoldable pub lower_bound : Watermark → Outbox → ℤ
unfolding read
lower_bound w o = max_int (pos 0) (read w o -ℤ max_int (pos 0) w.overlap)

-- advance(value)
unfoldable pub advance : Watermark → ℤ → Outbox → Outbox
unfolding read set_cursor
advance w value o = set_cursor w.name (max_int (max_int (read w o) value) (pos 0)) o

module _ {A : Type 0} (column : A → ℕ) where
  -- SELECT COALESCE(MAX(column), 0) FROM table
  unfoldable pub largest : List A → ℕ
  largest [] = 0
  largest (x ∷ xs) = max (column x) (largest xs)

  -- high_water(conn, table, column)
  unfoldable pub high_water : Watermark → Outbox → List A → ℤ
  unfolding read largest
  high_water w o table = max_int (read w o) (pos (largest table))

  abbrev pub is_within : ℤ → ℤ → A → Bool
  is_within low high x = lt_int low (pos (column x)) && le_int (pos (column x)) high

  -- bounded_rows(conn, table, select, column)
  unfoldable pub bounded_rows : Watermark → Outbox → List A → List A × ℤ
  unfolding high_water lower_bound order_by
  bounded_rows w o table = (
    order_by column (keep (is_within (lower_bound w o) (high_water w o table)) table),
    high_water w o table,
  )

max_int-pos : (i : ℤ) → pos 0 ≤ℤ i → max_int (pos 0) i ≡ i
max_int-pos (pos n) h = ground arith
max_int-pos (negsuc n) h = absurd (omega (arith, h))

pub 0≤mark_of : (raw : Option String) → pos 0 ≤ℤ mark_of raw
unfolding mark_of
0≤mark_of none = omega arith
0≤mark_of (some raw) = elim (Option-cases (int_text raw)) [
  | inl q ↦ rw (q, mark_of) (omega arith)
  | inr (i, q) ↦ rw (q, mark_of) (bound i)
]
  where
    bound : (i : ℤ) → pos 0 ≤ℤ max_int (pos 0) i
    bound (pos n) = ground arith
    bound (negsuc n) = ground arith

largest-bounds :
    {A : Type 0} (column : A → ℕ) (table : List A)
    → All (λ x. column x ≤ largest column table) table
unfolding largest
largest-bounds column [] = tt
largest-bounds column (x ∷ xs) =
    (omega arith, All-map _ _ (λ y h. omega (arith, h)) xs (largest-bounds column xs))

-- A mark that is written is read back.
mark_of-str_int : (i : ℤ) → pos 0 ≤ℤ i → mark_of (some (str_int i)) ≡ i
unfolding mark_of
mark_of-str_int i h = rw (int_text-str_int i, mark_of) (max_int-pos i h)

max_int-0 : (a b : ℤ) → pos 0 ≤ℤ a → max_int (max_int a b) (pos 0) ≡ max_int a b
max_int-0 (pos m) (pos n) h = ground arith
max_int-0 (pos m) (negsuc n) h = ground arith
max_int-0 (negsuc m) b h = absurd (omega (arith, h))

0≤max_int : (a b : ℤ) → pos 0 ≤ℤ a → pos 0 ≤ℤ max_int a b
0≤max_int (pos m) (pos n) h = ground arith
0≤max_int (pos m) (negsuc n) h = ground arith
0≤max_int (negsuc m) b h = absurd (omega (arith, h))

-- A watermark reads back the larger of its mark and the value that it was advanced to: it never
-- moves backwards, and no damaged cursor text stops it.
pub read-advance :
    (w : Watermark) (i : ℤ) (o : Outbox) → read w (advance w i o) ≡ max_int (read w o) i
unfolding read advance
read-advance w i o =
    let low = 0≤mark_of (get_cursor w.name o) in
    ap mark_of (get_cursor-set_cursor w.name (max_int (max_int (read w o) i) (pos 0)) o)
    ∙ ap (λ j. mark_of (some (str_int j))) (max_int-0 (read w o) i low)
    ∙ mark_of-str_int (max_int (read w o) i) (0≤max_int (read w o) i low)

below :
    (m l : ℤ)
    → pos 0 ≤ℤ m
    → (n : ℕ) → m <ℤ pos n
    → lt_int (max_int (pos 0) (m -ℤ max_int (pos 0) l)) (pos n) ≡ true
below (pos m) (pos l) h n k = ground arith
below (pos m) (negsuc l) h n k = ground arith
below (negsuc m) l h n k = absurd (omega (arith, h))

above : (m : ℤ) (k n : ℕ) → pos 0 ≤ℤ m → n ≤ k → le_int (pos n) (max_int m (pos k)) ≡ true
above (pos m) k n h q = ground arith
above (negsuc m) k n h q = absurd (omega (arith, h))

reaches : (m : ℤ) (k n : ℕ) → pos 0 ≤ℤ m → n ≤ k → pos n ≤ℤ max_int m (max_int m (pos k))
reaches (pos m) k n h q = ground arith
reaches (negsuc m) k n h q = absurd (omega (arith, h))

module _ {A : Type 0} (column : A → ℕ) (P : A → Type 0) where
  Any-insert_by : (x : A) (xs : List A) → P x ⊎ Any P xs → Any P (insert_by column x xs)
  unfolding insert_by
  Any-insert_by x [] h = h
  Any-insert_by x (y ∷ ys) h = elim (Bool-cases (leb (column x) (column y))) [
    | inl q ↦ rw (q, insert_by) h
    | inr q ↦
        rw (q, insert_by)
          (elim h [
            | inl here ↦ inr (Any-insert_by x ys (inl here))
            | inr (inl next) ↦ inl next
            | inr (inr later) ↦ inr (Any-insert_by x ys (inr later))
          ])
  ]

  Any-order_by : (xs : List A) → Any P xs → Any P (order_by column xs)
  unfolding order_by
  Any-order_by [] h = h
  Any-order_by (x ∷ xs) (inl h) = Any-insert_by x (order_by column xs) (inl h)
  Any-order_by (x ∷ xs) (inr h) = Any-insert_by x (order_by column xs) (inr (Any-order_by xs h))

-- A scan misses nothing: each row of the source whose column is above the mark is among the rows
-- that the scan reads, and once the mark is advanced to the scan's end, no row is above it.
pub bounded_rows-covers :
    {A : Type 0} (column : A → ℕ) (w : Watermark) (o : Outbox) (table : List A)
    → let (rows, high) = bounded_rows column w o table in
      All (λ x. read w o <ℤ pos (column x) → Among rows x) table
      × All (λ x. pos (column x) ≤ℤ read w (advance w high o)) table
unfolding bounded_rows high_water lower_bound read
bounded_rows-covers column w o table =
    let m = read w o in
    let low : pos 0 ≤ℤ m = 0≤mark_of (get_cursor w.name o) in
    let high = high_water column w o table in
    let within = is_within column (lower_bound w o) high in
    let bounds = largest-bounds column table in
    (
      All-apply _ _ table bounds (
          All-map _ _
            (λ x among b k.
              let read_too : within x ≡ true =
                rw
                  (
                    below m w.overlap low (column x) k,
                    above m (largest column table) (column x) low b,
                  )
                  refl in
              let same : (y : _) → y ≡ x → within y ≡ true = λ y e. ap within e ∙ read_too in
              Any-order_by column (λ y. y ≡ x) (keep within table)
                (Any-keep (λ y. y ≡ x) within same table among))
            table (All-Among table)),
      All-map _ _
          (λ x b.
            subst (λ i. pos (column x) ≤ℤ i) (sym (read-advance w high o))
              (reaches m (largest column table) (column x) low b))
          table bounds,
    )
