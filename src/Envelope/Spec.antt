-- ===== src/Envelope/Spec.antt =====
-- What a valid envelope is, stated without the validator, and that the validator decides it.

use hermes_flight_recorder.Base.{
  sym, if◌then◌else◌, All, String, ◌≡◌, refl, ap, ◌∙◌, ◌≢◌, ◌↔◌, ◌⊎◌, inl, inr, Bool, true, false,
  ◌||◌, not, Option, none, some, List, [], ◌∷◌, arith, ◌==◌, eq_iff,
}
use hermes_flight_recorder.Value.{
  Value, null, boolean, integer, real, text, array, object, Fields, find, keys, not_null, as_text,
  as_object, as_text-eq_some, as_object-eq_some,
}
use hermes_flight_recorder.Result.{
  ok, require, or_raise, >>=-eq-ok, require-eq-ok, or_raise-eq-ok, key_error, envelope_error,
}
use hermes_flight_recorder.Envelope.{
  Rule, rules, accepts, present, check_fields, check_version, all_known, check_companions,
  check_event_type, content_companions, known_fields, validate, validate_object, validate_object,
}
use hermes_flight_recorder.Envelope.Vocabulary.{all_event_types, contains}

-- A required field is there, and a field that is there has its type.
abbrev pub Conforms : Fields → Rule → Type 0
Conforms r rule =
    (rule.required ≡ true → present r rule.name ≡ true)
    × ((v : Value) → find rule.name r ≡ some v → v ≢ null → rule.predicate v ≡ true)

-- The payload is a dictionary whose event type is one of the vocabulary.
abbrev pub HasEventType : Fields → Type 0
HasEventType r =
    (p : Fields) × (t : String) × (find "payload" r ≡ some (object p))
    × (find "event_type" p ≡ some (text t))
    × (contains t all_event_types ≡ true)

pub record IsEnvelope (allow_unknown_fields : Bool) (r : Fields) : Type 0 where
  pub typed : All (Conforms r) rules
  pub version : find "schema_version" r ≡ some (text "1")
  pub known : allow_unknown_fields ≡ false → All (λ k. contains k known_fields ≡ true) (keys r)
  pub content : All (λ name. present r name ≡ present r "content_ciphertext") content_companions
  pub event : HasEventType r

accepts_null :
    (p : Value → Bool) (required : Bool) (o : Option Value)
    → not_null o ≡ false
    → accepts p required o ≡ not required
accepts_null p required none h = refl
accepts_null p required (some null) h = refl
accepts_null p required (some (boolean _)) h = cc
accepts_null p required (some (integer _)) h = cc
accepts_null p required (some (real _)) h = cc
accepts_null p required (some (text _)) h = cc
accepts_null p required (some (array _)) h = cc
accepts_null p required (some (object _)) h = cc

accepts_some :
    (p : Value → Bool) (required : Bool) (v : Value)
    → v ≢ null
    → (accepts p required (some v) ≡ p v) × (not_null (some v) ≡ true)
accepts_some p required null h = absurd (h refl)
accepts_some p required (boolean _) h = (refl, refl)
accepts_some p required (integer _) h = (refl, refl)
accepts_some p required (real _) h = (refl, refl)
accepts_some p required (text _) h = (refl, refl)
accepts_some p required (array _) h = (refl, refl)
accepts_some p required (object _) h = (refl, refl)

not_null-cases :
    (o : Option Value) → (not_null o ≡ false) ⊎ ((v : Value) × (o ≡ some v) × (v ≢ null))
not_null-cases none = inl refl
not_null-cases (some null) = inl refl
not_null-cases (some (boolean b)) = inr (boolean b, refl, λ e. cc)
not_null-cases (some (integer b)) = inr (integer b, refl, λ e. cc)
not_null-cases (some (real b)) = inr (real b, refl, λ e. cc)
not_null-cases (some (text b)) = inr (text b, refl, λ e. cc)
not_null-cases (some (array b)) = inr (array b, refl, λ e. cc)
not_null-cases (some (object b)) = inr (object b, refl, λ e. cc)

accepts-Conforms :
    (r : Fields) (rule : Rule)
    → accepts rule.predicate rule.required (find rule.name r) ≡ true
    → Conforms r rule
accepts-Conforms r rule h = elim (not_null-cases (find rule.name r)) [
  | inl e ↦ (
    λ q. ground (arith, accepts_null rule.predicate rule.required (find rule.name r) e),
    λ v f n. absurd (cc (f, e, (accepts_some rule.predicate rule.required v n).1)),
  )
  | inr (v, f, n) ↦ (
    λ q. cc (f, (accepts_some rule.predicate rule.required v n).1),
    λ w g m. cc (f, g, h, (accepts_some rule.predicate rule.required v n).0),
  )
]

Conforms-accepts :
    (r : Fields) (rule : Rule)
    → Conforms r rule
    → accepts rule.predicate rule.required (find rule.name r) ≡ true
Conforms-accepts r rule c = elim (not_null-cases (find rule.name r)) [
  | inl e ↦ ground (arith, accepts_null rule.predicate rule.required (find rule.name r) e, c.0)
  | inr (v, f, n) ↦ rw f ((accepts_some rule.predicate rule.required v n).0 ∙ c.1 v f n)
]

pub check_fields_iff :
    (rs : List Rule) (r : Fields) → (check_fields rs r ≡ ok tt) ↔ All (Conforms r) rs
unfolding check_fields
check_fields_iff [] r = (λ h. tt, λ h. refl)
check_fields_iff (rule ∷ rest) r = (
  λ h.
      let (u, first, later) =
        >>=-eq-ok (require (accepts rule.predicate rule.required (find rule.name r)) _) _ h in
      (accepts-Conforms r rule (require-eq-ok _ _ first), (check_fields_iff rest r).0 later),
  λ h. rw (Conforms-accepts r rule h.0) ((check_fields_iff rest r).1 h.1),
)

check_version_iff :
    (r : Fields) → (check_version r ≡ ok tt) ↔ (find "schema_version" r ≡ some (text "1"))
unfolding check_version
check_version_iff r = (
  λ h.
      let (v, e, same) =
        >>=-eq-ok (or_raise envelope_error (as_text (find "schema_version" r))) _ h in
      as_text-eq_some _ v (or_raise-eq-ok _ _ e)
      ∙ ap (λ s. some (text s)) ((eq_iff v "1").0 (require-eq-ok (v == "1") _ same)),
  λ h. rw h,
)

all_known_iff :
    (ks : List String) → (all_known ks ≡ true) ↔ All (λ k. contains k known_fields ≡ true) ks
unfolding all_known
all_known_iff [] = (λ h. tt, λ h. refl)
all_known_iff (k ∷ ks) = (
  λ h. (ground arith, (all_known_iff ks).0 (ground arith)),
  λ h. ground (arith, (all_known_iff ks).1 h.1),
)

same_presence :
    (here ciphertext : Bool) → (if ciphertext then here else not here) ≡ true → here ≡ ciphertext
same_presence here ciphertext h = ground arith

presence_same :
    (here ciphertext : Bool) → here ≡ ciphertext → (if ciphertext then here else not here) ≡ true
presence_same here ciphertext h = ground arith

check_companions_iff :
    (names : List String) (r : Fields)
    → (check_companions names r ≡ ok tt)
      ↔ All (λ name. present r name ≡ present r "content_ciphertext") names
unfolding check_companions
check_companions_iff [] r = (λ h. tt, λ h. refl)
check_companions_iff (n ∷ ns) r = (
  λ h.
      let (u, first, later) = >>=-eq-ok (require _ _) _ h in
      (same_presence _ _ (require-eq-ok _ _ first), (check_companions_iff ns r).0 later),
  λ h. rw (presence_same _ _ h.0) ((check_companions_iff ns r).1 h.1),
)

check_event_type_iff : (r : Fields) → (check_event_type r ≡ ok tt) ↔ HasEventType r
unfolding check_event_type
check_event_type_iff r = (
  λ h.
      let (p, e, h') = >>=-eq-ok (or_raise key_error (as_object (find "payload" r))) _ h in
      let (t, f, h'') = >>=-eq-ok (or_raise envelope_error (as_text (find "event_type" p))) _ h' in
      (
        p,
        t,
        as_object-eq_some _ p (or_raise-eq-ok _ _ e),
        as_text-eq_some _ t (or_raise-eq-ok _ _ f),
        require-eq-ok _ _ h'',
      ),
  λ (p, t, e, f, h). rw e (rw f (rw h)),
)

known_or : (a b : Bool) → (a || b ≡ true) ↔ (a ≡ false → b ≡ true)
known_or true b = (λ h e. cc, λ h. refl)
known_or false b = (λ h e. h, λ h. h refl)

validate_object_iff : (a : Bool) (r : Fields) → (validate_object a r ≡ ok r) ↔ IsEnvelope a r
unfolding validate_object
validate_object_iff a r = (
  λ h.
      let (u, fields, h₁) = >>=-eq-ok (check_fields rules r) _ h in
      let (u', version, h₂) = >>=-eq-ok (check_version r) _ h₁ in
      let (u'', known, h₃) = >>=-eq-ok (require (a || all_known (keys r)) envelope_error) _ h₂ in
      let (v, companions, h₄) = >>=-eq-ok (check_companions content_companions r) _ h₃ in
      let (v', event, h₅) = >>=-eq-ok (check_event_type r) _ h₄ in
      record {
        typed = (check_fields_iff rules r).0 fields;
        version = (check_version_iff r).0 version;
        known = λ e. (all_known_iff (keys r)).0 ((known_or _ _).0 (require-eq-ok _ _ known) e);
        content = (check_companions_iff content_companions r).0 companions;
        event = (check_event_type_iff r).0 event;
      },
  λ h. rw ((check_fields_iff rules r).1 h.typed) (
      rw ((check_version_iff r).1 h.version) (
        rw ((known_or a _).1 (λ e. (all_known_iff (keys r)).1 (h.known e))) (
          rw ((check_companions_iff content_companions r).1 h.content)
            (rw ((check_event_type_iff r).1 h.event) refl)))),
)

-- The validator accepts a dictionary exactly when it is a valid envelope: every required field is
-- there with its type, optional fields have theirs, the schema version is "1", the field names
-- are known unless unknown ones are allowed, the content companions are there exactly with the
-- ciphertext, and the payload names an event type of the vocabulary. It returns the dictionary.
pub validate_iff :
    (allow_unknown_fields : Bool) (r : Fields)
    → (validate allow_unknown_fields (object r) ≡ ok r) ↔ IsEnvelope allow_unknown_fields r
unfolding validate
validate_iff a r = validate_object_iff a r

-- What the validator returns is the dictionary that it was given.
pub validate-eq-ok :
    (a : Bool) (r : Fields) {c : Fields}
    → validate a (object r) ≡ ok c
    → validate a (object r) ≡ ok r
unfolding validate validate_object
validate-eq-ok a r h =
    let (u, _, h₁) = >>=-eq-ok (check_fields rules r) _ h in
    let (u', _, h₂) = >>=-eq-ok (check_version r) _ h₁ in
    let (u'', _, h₃) = >>=-eq-ok (require (a || all_known (keys r)) envelope_error) _ h₂ in
    let (v, _, h₄) = >>=-eq-ok (check_companions content_companions r) _ h₃ in
    let (v', _, h₅) = >>=-eq-ok (check_event_type r) _ h₄ in h ∙ sym h₅
