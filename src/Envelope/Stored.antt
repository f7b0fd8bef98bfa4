-- ===== src/Envelope/Stored.antt =====
-- An envelope that is stored as JSON text with sorted keys and read back is still valid.
use hermes_flight_recorder.Base.{
  All, String, ◌≡◌, refl, sym, ap, ◌∙◌, Bool, Option, none, some, List, [], ◌∷◌, arith,
}
use hermes_flight_recorder.Value.{Value, null, Fields, find, not_null}
use hermes_flight_recorder.Value.Sort.{
  sort_value, sort_fields, All-keys-sort_fields, map_value, find-sort_fields,
}
use hermes_flight_recorder.Envelope.{
  Rule, rules, is_str, is_int, is_number, is_bool, is_dict, present, content_companions,
}
use hermes_flight_recorder.Envelope.Spec.{Conforms, IsEnvelope, HasEventType}

-- A predicate that looks only at the outermost constructor.
abbrev IsShape : (Value → Bool) → Type 0
IsShape p = (v : Value) → p (sort_value v) ≡ p v

str-IsShape : IsShape is_str
unfolding sort_value
str-IsShape v = ground arith

int-IsShape : IsShape is_int
unfolding sort_value
int-IsShape v = ground arith

number-IsShape : IsShape is_number
unfolding sort_value
number-IsShape v = ground arith

bool-IsShape : IsShape is_bool
unfolding sort_value
bool-IsShape v = ground arith

dict-IsShape : IsShape is_dict
unfolding sort_value
dict-IsShape v = ground arith

shapes : All (λ (rule : Rule). IsShape rule.predicate) rules
shapes = (
  str-IsShape,
  (
    str-IsShape,
    (
      int-IsShape,
      (
        number-IsShape,
        (
          number-IsShape,
          (
            str-IsShape,
            (
              str-IsShape,
              (
                str-IsShape,
                (
                  dict-IsShape,
                  (
                    str-IsShape,
                    (
                      str-IsShape,
                      (
                        str-IsShape,
                        (
                          str-IsShape,
                          (
                            str-IsShape,
                            (
                              str-IsShape,
                              (
                                str-IsShape,
                                (
                                  str-IsShape,
                                  (
                                    dict-IsShape,
                                    (
                                      str-IsShape,
                                      (
                                        str-IsShape,
                                        (str-IsShape, (str-IsShape, (bool-IsShape, tt))),
                                      ),
                                    ),
                                  ),
                                ),
                              ),
                            ),
                          ),
                        ),
                      ),
                    ),
                  ),
                ),
              ),
            ),
          ),
        ),
      ),
    ),
  ),
)

not_null-sort : (o : Option Value) → not_null (map_value sort_value o) ≡ not_null o
unfolding sort_value
not_null-sort o = ground arith

present-sort_fields : (name : String) (r : Fields) → present (sort_fields r) name ≡ present r name
present-sort_fields name r = ap not_null (find-sort_fields name r) ∙ not_null-sort (find name r)

sort_value-null : sort_value null ≡ null
unfolding sort_value
sort_value-null = refl

map_value-eq_some :
    (f : Value → Value) (o : Option Value) (w : Value)
    → map_value f o ≡ some w
    → (v : Value) × (o ≡ some v) × (f v ≡ w)
map_value-eq_some f none w h = cc
map_value-eq_some f (some v) w h = (v, refl, cc)

Conforms-sort_fields :
    (rule : Rule) (r : Fields)
    → IsShape rule.predicate
    → Conforms r rule
    → Conforms (sort_fields r) rule
Conforms-sort_fields rule r shape h = (
  λ q. present-sort_fields rule.name r ∙ h.0 q,
  λ w f n.
      let (v, g, e) =
        map_value-eq_some sort_value (find rule.name r) w
          (sym (find-sort_fields rule.name r) ∙ f) in
      ap rule.predicate (sym e)
      ∙ shape v
      ∙ h.1 v g (λ z. n (sym e ∙ ap sort_value z ∙ sort_value-null)),
)

All-Conforms-sort_fields :
    (rs : List Rule) (r : Fields)
    → All (λ (rule : Rule). IsShape rule.predicate) rs
    → All (Conforms r) rs
    → All (Conforms (sort_fields r)) rs
All-Conforms-sort_fields [] r shape h = tt
All-Conforms-sort_fields (rule ∷ rs) r shape h =
    (Conforms-sort_fields rule r shape.0 h.0, All-Conforms-sort_fields rs r shape.1 h.1)

content-sort_fields :
    (names : List String) (r : Fields)
    → All (λ name. present r name ≡ present r "content_ciphertext") names
    → All
        (λ name. present (sort_fields r) name ≡ present (sort_fields r) "content_ciphertext")
        names
content-sort_fields [] r h = tt
content-sort_fields (n ∷ names) r h = (
  present-sort_fields n r ∙ h.0 ∙ sym (present-sort_fields "content_ciphertext" r),
  content-sort_fields names r h.1,
)

HasEventType-sort_fields : (r : Fields) → HasEventType r → HasEventType (sort_fields r)
unfolding sort_value
HasEventType-sort_fields r (p, t, e, f, h) = (
  sort_fields p,
  t,
  find-sort_fields "payload" r ∙ ap (map_value sort_value) e,
  find-sort_fields "event_type" p ∙ ap (map_value sort_value) f,
  h,
)

-- A valid envelope is still valid after it is stored with sorted keys, at every depth.
pub sort_fields-IsEnvelope : (a : Bool) (r : Fields) → IsEnvelope a r → IsEnvelope a (sort_fields r)
unfolding sort_value
sort_fields-IsEnvelope a r h = record {
  typed = All-Conforms-sort_fields rules r shapes h.typed;
  version = find-sort_fields "schema_version" r ∙ ap (map_value sort_value) h.version;
  known = λ e. All-keys-sort_fields _ r (h.known e);
  content = content-sort_fields content_companions r h.content;
  event = HasEventType-sort_fields r h.event;
}
