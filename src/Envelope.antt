-- ===== src/Envelope.antt =====
-- The validation of an envelope (hermes_flight_recorder/envelope.py).
pub mod Vocabulary
pub mod Spec
pub mod Stored
use hermes_flight_recorder.Base.{
  ltb, leb, eqb, if◌then◌else◌, ltb→lt, lt→ltb, le→ltb, leb→le, Bool-cases, Option-cases, length,
  take, drop, concat, All, any, keep, length-append, take-append-drop, length-take-le, All-append,
  All-left, All-right, All-map, ℤ, pos, negsuc, pos_part, neg_part, ◌+ℤ◌, ◌-ℤ◌, ◌≤ℤ◌, ◌<ℤ◌, le_int,
  lt_int, eq_int, max_int, eq_of_parts, <ℤ_trans, str_nat, int_nat, int_nat-str_nat, str_int,
  int_text, int_text-str_int, ℕ, zero, suc, ◌+◌, ◌-◌, ◌*◌, ◌/◌, ◌%◌, ◌^◌, ◌≤◌, ◌<◌, compare,
  Ordering, min, max, Char, code, String, ◌≡◌, refl, sym, ap, ◌∙◌, subst, fun_ext, ◌≢◌, ◌↔◌, ◌⊎◌,
  inl, inr, Bool, true, false, ◌&&◌, ◌||◌, not, Option, none, some, List, [], ◌∷◌, ◌++◌, map,
  append-nil, append_assoc, arith, ◌==◌, eq_iff, eq_refl,
}
use hermes_flight_recorder.Value.{
  Value, null, boolean, integer, real, text, object, Fields, find, keys, not_null, as_text,
  as_object,
}
use hermes_flight_recorder.Result.{
  Result, ok, err, ◌>>=◌, ◌>>◌, require, or_raise, envelope_error, key_error,
}
use Vocabulary.{schema_version, all_event_types, contains}

-- The type predicates; a Boolean is no integer, by its own constructor.
abbrev pub is_str : Value → Bool
is_str (text _) = true
is_str _ = false

abbrev pub is_int : Value → Bool
is_int (integer _) = true
is_int _ = false

abbrev pub is_number : Value → Bool
is_number (integer _) = true
is_number (real _) = true
is_number _ = false

abbrev pub is_bool : Value → Bool
is_bool (boolean _) = true
is_bool _ = false

abbrev pub is_dict : Value → Bool
is_dict (object _) = true
is_dict _ = false

-- One row of the field table.
pub record Rule : Type 0 where
  pub name : String
  pub predicate : Value → Bool
  pub required : Bool

abbrev needs : String → (Value → Bool) → Rule
needs n p = record { name = n; predicate = p; required = true }

abbrev allows : String → (Value → Bool) → Rule
allows n p = record { name = n; predicate = p; required = false }

abbrev pub rules : List Rule
rules =
    needs "schema_version" is_str
    ∷ needs "event_id" is_str
    ∷ needs "producer_sequence" is_int
    ∷ needs "occurred_at" is_number
    ∷ needs "recorded_at" is_number
    ∷ needs "installation_id" is_str
    ∷ needs "tenant_id" is_str
    ∷ needs "profile" is_str
    ∷ needs "runtime" is_dict
    ∷ allows "session_id" is_str
    ∷ allows "session_key" is_str
    ∷ allows "parent_session_id" is_str
    ∷ allows "invocation_id" is_str
    ∷ needs "correlation_id" is_str
    ∷ allows "causation_id" is_str
    ∷ needs "source" is_str
    ∷ needs "capture_method" is_str
    ∷ needs "payload" is_dict
    ∷ allows "content_ciphertext" is_str
    ∷ allows "content_nonce" is_str
    ∷ allows "content_hash" is_str
    ∷ allows "key_version" is_str
    ∷ needs "partial" is_bool
    ∷ []

abbrev pub known_fields : List String
known_fields = map (λ (r : Rule). r.name) rules

abbrev pub content_companions : List String
content_companions = "content_nonce" ∷ "content_hash" ∷ "key_version" ∷ []

-- A field counts as present only when it exists and is not None.
abbrev pub present : Fields → String → Bool
present r name = not_null (find name r)

-- The body of the loop over the field table.
abbrev pub accepts : (Value → Bool) → Bool → Option Value → Bool
accepts p required none = not required
accepts p required (some null) = not required
accepts p required (some v) = p v

pub check_fields : List Rule → Fields → Result (Unit {0})
check_fields [] r = ok tt
check_fields (rule ∷ rest) r = do
  require (accepts rule.predicate rule.required (find rule.name r)) envelope_error
  check_fields rest r

pub check_version : Fields → Result (Unit {0})
check_version r = do
  version ← or_raise envelope_error (as_text (find "schema_version" r))
  require (version == schema_version) envelope_error

-- set(record) - _KNOWN_FIELDS is empty
pub all_known : List String → Bool
all_known [] = true
all_known (k ∷ ks) = contains k known_fields && all_known ks

-- Each companion is present exactly when the ciphertext is.
pub check_companions : List String → Fields → Result (Unit {0})
check_companions [] r = ok tt
check_companions (name ∷ names) r = do
  require (if present r "content_ciphertext" then present r name else not (present r name))
      envelope_error
  check_companions names r

pub check_event_type : Fields → Result (Unit {0})
check_event_type r = do
  payload ← or_raise key_error (as_object (find "payload" r))
  event_type ← or_raise envelope_error (as_text (find "event_type" payload))
  require (contains event_type all_event_types) envelope_error

-- The checks of a dictionary, in the order of the code.
pub validate_object : Bool → Fields → Result Fields
validate_object allow_unknown_fields r = do
  check_fields rules r
  check_version r
  require (allow_unknown_fields || all_known (keys r)) envelope_error
  check_companions content_companions r
  check_event_type r
  ok r

-- validate(record, allow_unknown_fields=...), which returns the record.
unfoldable pub validate : Bool → Value → Result Fields
unfolding validate_object check_fields check_version all_known check_companions check_event_type
    find keys contains
validate allow_unknown_fields (object r) = validate_object allow_unknown_fields r
validate allow_unknown_fields _ = err envelope_error
