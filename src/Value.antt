-- ===== src/Value.antt =====
-- JSON values as Python holds them after `json.loads`, and dictionaries with string keys
-- (hermes_flight_recorder/envelope.py, `Mapping[str, Any]`).
-- A float is a non-negative number of millionths: the program's floats are epoch seconds and
-- durations. A dictionary is a list of fields in insertion order; a look-up finds the first.
pub mod Json
pub mod Sort
use hermes_flight_recorder.Base.{
  ltb, leb, eqb, if◌then◌else◌, ltb→lt, lt→ltb, le→ltb, leb→le, Bool-cases, Option-cases, length,
  take, drop, concat, All, any, keep, length-append, take-append-drop, length-take-le, All-append,
  All-left, All-right, All-map, ℤ, pos, negsuc, pos_part, neg_part, ◌+ℤ◌, ◌-ℤ◌, ◌≤ℤ◌, ◌<ℤ◌, le_int,
  lt_int, eq_int, max_int, eq_of_parts, <ℤ_trans, str_nat, int_nat, int_nat-str_nat, str_int,
  int_text, int_text-str_int, ℕ, zero, suc, ◌+◌, ◌-◌, ◌*◌, ◌/◌, ◌%◌, ◌^◌, ◌≤◌, ◌<◌, compare,
  Ordering, min, max, Char, code, String, ◌≡◌, refl, sym, ap, ◌∙◌, subst, fun_ext, ◌≢◌, ◌↔◌, ◌⊎◌,
  inl, inr, Bool, true, false, ◌&&◌, ◌||◌, not, Option, none, some, List, [], ◌∷◌, ◌++◌, map,
  append-nil, append_assoc, arith, ◌==◌, eq_iff, eq_refl,
}

mutual
  pub data Value : Type 0 where
    null : Value
    boolean : Bool → Value
    integer : ℤ → Value
    real : ℕ → Value
    text : String → Value
    array : Items → Value
    object : Fields → Value

  pub data Items : Type 0 where
    nil : Items
    cons : Value → Items → Items

  pub data Fields : Type 0 where
    end : Fields
    field : String → Value → Fields → Fields

-- record.get(name), without Python's default
unfoldable pub find : String → Fields → Option Value
find name end = none
find name (field k v r) = if k == name then some v else find name r

-- record[name] = value
unfoldable pub put : String → Value → Fields → Fields
put name w end = field name w end
put name w (field k v r) = if k == name then field k w r else field k v (put name w r)

-- record.update(other)
unfoldable pub update : Fields → Fields → Fields
update r end = r
update r (field k v other) = update (put k v r) other

unfoldable pub keys : Fields → List String
keys end = []
keys (field k v r) = k ∷ keys r

-- name in record and record[name] is not None
abbrev pub not_null : Option Value → Bool
not_null none = false
not_null (some null) = false
not_null (some _) = true

-- isinstance(value, str), and so on
abbrev pub is_text : Value → Bool
is_text (text _) = true
is_text _ = false

abbrev pub as_text : Option Value → Option String
as_text (some (text s)) = some s
as_text _ = none

abbrev pub as_integer : Option Value → Option ℤ
as_integer (some (integer i)) = some i
as_integer _ = none

abbrev pub as_object : Option Value → Option Fields
as_object (some (object r)) = some r
as_object _ = none

pub find-put :
    (name key : String) (w : Value) (r : Fields)
    → find name (put key w r) ≡ (if key == name then some w else find name r)
unfolding find put
find-put name key w end = refl
find-put name key w (field k v r) =
    ground (arith, eq_iff key name, eq_iff k key, eq_iff k name, find-put name key w r)

-- A typed look-up found a value of its type.
pub as_text-eq_some : (o : Option Value) (x : String) → as_text o ≡ some x → o ≡ some (text x)
as_text-eq_some none x h = cc
as_text-eq_some (some null) x h = cc
as_text-eq_some (some (boolean v)) x h = cc
as_text-eq_some (some (integer v)) x h = cc
as_text-eq_some (some (real v)) x h = cc
as_text-eq_some (some (text v)) x h = cc
as_text-eq_some (some (array v)) x h = cc
as_text-eq_some (some (object v)) x h = cc

pub as_integer-eq_some : (o : Option Value) (x : ℤ) → as_integer o ≡ some x → o ≡ some (integer x)
as_integer-eq_some none x h = cc
as_integer-eq_some (some null) x h = cc
as_integer-eq_some (some (boolean v)) x h = cc
as_integer-eq_some (some (integer v)) x h = cc
as_integer-eq_some (some (real v)) x h = cc
as_integer-eq_some (some (text v)) x h = cc
as_integer-eq_some (some (array v)) x h = cc
as_integer-eq_some (some (object v)) x h = cc

pub as_object-eq_some : (o : Option Value) (x : Fields) → as_object o ≡ some x → o ≡ some (object x)
as_object-eq_some none x h = cc
as_object-eq_some (some null) x h = cc
as_object-eq_some (some (boolean v)) x h = cc
as_object-eq_some (some (integer v)) x h = cc
as_object-eq_some (some (real v)) x h = cc
as_object-eq_some (some (text v)) x h = cc
as_object-eq_some (some (array v)) x h = cc
as_object-eq_some (some (object v)) x h = cc
