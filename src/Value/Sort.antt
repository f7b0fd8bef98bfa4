-- ===== src/Value/Sort.antt =====
-- json.dumps(..., sort_keys=True): the value with the keys of every dictionary in order.
use hermes_flight_recorder.Base.{
  All, if◌then◌else◌, Ordering, String, ◌≡◌, refl, Option, none, some, arith, ◌==◌, eq_iff,
}
use hermes_flight_recorder.Value.{
  Value, null, boolean, integer, real, text, array, object, Items, nil, cons, Fields, end, field,
  find, keys,
}
use Prim.Native.String.{compare as compare_text}

-- In front of the first key that is not smaller, so fields with one key keep their order.
insert_field : String → Value → Fields → Fields
insert_field k v end = field k v end
insert_field k v (field j w r) = elim (compare_text k j) [
  | Ordering.gt ↦ field j w (insert_field k v r)
  | _ ↦ field k v (field j w r)
]

unfoldable mutual
  unfolding insert_field

  pub sort_value : Value → Value
  sort_value null = null
  sort_value (boolean b) = boolean b
  sort_value (integer i) = integer i
  sort_value (real n) = real n
  sort_value (text s) = text s
  sort_value (array xs) = array (sort_items xs)
  sort_value (object r) = object (sort_fields r)

  pub sort_items : Items → Items
  sort_items nil = nil
  sort_items (cons x xs) = cons (sort_value x) (sort_items xs)

  pub sort_fields : Fields → Fields
  sort_fields end = end
  sort_fields (field k v r) = insert_field k (sort_value v) (sort_fields r)

abbrev pub map_value : (Value → Value) → Option Value → Option Value
map_value f none = none
map_value f (some v) = some (f v)

find-insert_field :
    (name k : String) (v : Value) (r : Fields)
    → find name (insert_field k v r) ≡ (if k == name then some v else find name r)
unfolding find insert_field
find-insert_field name k v end = refl
find-insert_field name k v (field j w r) =
    ground (arith, eq_iff k name, eq_iff j name, eq_iff k j, find-insert_field name k v r)

-- A look-up after sorting finds the sorted value of the same field.
pub find-sort_fields :
    (name : String) (r : Fields) → find name (sort_fields r) ≡ map_value sort_value (find name r)
unfolding find sort_fields
find-sort_fields name end = refl
find-sort_fields name (field k v r) =
    ground (arith, find-insert_field name k (sort_value v) (sort_fields r), find-sort_fields name r)

module _ (P : String → Type 0) where
  All-keys-insert_field :
      (k : String) (v : Value) (r : Fields)
      → P k
      → All P (keys r)
      → All P (keys (insert_field k v r))
  unfolding keys insert_field
  All-keys-insert_field k v end p h = (p, h)
  All-keys-insert_field k v (field j w r) p h =
      elim (compare_text k j)
        as (λ o. All P (
          keys (elim o [
            | Ordering.gt ↦ field j w (insert_field k v r)
            | _ ↦ field k v (field j w r)
          ]))) [
            | Ordering.lt ↦ (p, h)
            | Ordering.eq ↦ (p, h)
            | Ordering.gt ↦ (h.0, All-keys-insert_field k v r p h.1)
          ]

  -- Sorting adds no key.
  pub All-keys-sort_fields : (r : Fields) → All P (keys r) → All P (keys (sort_fields r))
  unfolding keys sort_fields
  All-keys-sort_fields end h = tt
  All-keys-sort_fields (field k v r) h =
      All-keys-insert_field k (sort_value v) (sort_fields r) h.0 (All-keys-sort_fields r h.1)
