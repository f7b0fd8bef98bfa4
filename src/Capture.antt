-- ===== src/Capture.antt =====
-- Building records and appending them (hermes_flight_recorder/collector/_common.py). The state of a
-- collector is its process, its counts by event type and how many calls of append it made: the
-- draws of the n-th call are the parameter `calls`, its secret scan is `scans`.
pub mod Once
use hermes_flight_recorder.Base.{
  ltb, leb, eqb, if◌then◌else◌, ltb→lt, lt→ltb, le→ltb, leb→le, Bool-cases, Option-cases, length,
  take, drop, concat, All, any, keep, length-append, take-append-drop, length-take-le, All-append,
  All-left, All-right, All-map, All-apply, keep-true, keep-false, cons-injective, ℤ, pos, negsuc,
  pos_part, neg_part, ◌+ℤ◌, ◌-ℤ◌, ◌≤ℤ◌, ◌<ℤ◌, le_int, lt_int, eq_int, max_int, eq_of_parts,
  <ℤ_trans, str_nat, int_nat, int_nat-str_nat, str_int, int_text, int_text-str_int, ℕ, zero, suc,
  ◌+◌, ◌-◌, ◌*◌, ◌/◌, ◌%◌, ◌^◌, ◌≤◌, ◌<◌, compare, Ordering, min, max, Char, code, String, ◌≡◌,
  refl, sym, ap, ◌∙◌, subst, fun_ext, ◌≢◌, ◌↔◌, ◌⊎◌, inl, inr, Bool, true, false, ◌&&◌, ◌||◌, not,
  Option, none, some, List, [], ◌∷◌, ◌++◌, map, append-nil, append_assoc, arith, ◌==◌, eq_iff,
  eq_refl,
}
use hermes_flight_recorder.Value.{
  integer, Value, boolean, real, text, object, Fields, end, field, find, put, as_text, as_object,
}
use hermes_flight_recorder.Value.Json.{Bytes}
use hermes_flight_recorder.Result.{Result, ok, err, ◌>>=◌, or_raise, key_error}
use hermes_flight_recorder.Exec.{Exec}
use hermes_flight_recorder.Outbox.Append.{Process, append}
use hermes_flight_recorder.Outbox.Append.Records.{Call, Scan}

-- counts[name] += 1, of a defaultdict
unfoldable pub bump : String → List (String × ℕ) → List (String × ℕ)
bump name [] = (name, 1) ∷ []
bump name ((key, n) ∷ counts) =
    if key == name then (key, n + 1) ∷ counts else (key, n) ∷ bump name counts

-- rec[key] = val, where val is not None
abbrev pub put_text : String → Option String → Fields → Fields
put_text key none r = r
put_text key (some s) r = put key (text s) r

-- The keyword arguments of build_record that have a default
pub record Links : Type 0 where
  pub session_id : Option String
  pub session_key : Option String
  pub parent_session_id : Option String
  pub invocation_id : Option String
  pub causation_id : Option String
  pub tenant_id : String
  pub profile : String

abbrev pub no_links : Links
no_links = record {
  session_id = none;
  session_key = none;
  parent_session_id = none;
  invocation_id = none;
  causation_id = none;
  tenant_id = "default";
  profile = "default";
}

-- runtime_stamp(kind), without a home_mode
unfoldable pub runtime_stamp : String → Fields
runtime_stamp kind = field "kind" (text kind) (field "engine" (text "standard") end)

-- build_record(event_type=..., occurred_at=..., ...)
unfoldable pub build_record :
    String → ℕ → String → String → Fields → String → Fields → Links → Bool → Fields
unfolding put
build_record event_type occurred_at source capture_method runtime correlation_id payload links
      partial =
    put_text "causation_id" links.causation_id (
      put_text "invocation_id" links.invocation_id (
        put_text "parent_session_id" links.parent_session_id (
          put_text "session_key" links.session_key (
            put_text "session_id" links.session_id (
              field "occurred_at" (real occurred_at) (
                field "tenant_id" (text links.tenant_id) (
                  field "profile" (text (if links.profile == "" then "default" else links.profile))
                    (field "runtime" (object runtime) (
                      field "correlation_id" (text correlation_id) (
                        field "source" (text source) (
                          field "capture_method" (text capture_method) (
                            field "payload" (object (put "event_type" (text event_type) payload))
                              (field "partial" (boolean partial) end)))))))))))))

-- float(record["occurred_at"]), of a number. A negative one stands as 0, which is kept as well. A
-- text is not read: build_record stores a float.
occurred_at_of : Fields → Result ℕ
occurred_at_of r = elim (find "occurred_at" r) [
  | some (real n) ↦ ok n
  | some (integer (pos n)) ↦ ok (n * 1000000)
  | some (integer (negsuc n)) ↦ ok 0
  | _ ↦ err key_error
]

-- text.startswith(prefix)
starts_with : String → String → Bool
starts_with String.[] s = true
starts_with (String.◌∷◌ c prefix) String.[] = false
starts_with (String.◌∷◌ c prefix) (String.◌∷◌ d s) = eqb (code c) (code d) && starts_with prefix s

-- _HORIZON_EXEMPT_CAPTURE_METHODS and the prefix poll:
pub is_polled : String → Bool
unfolding starts_with
is_polled method = starts_with "poll:" method && not (method == "poll:cron:heartbeat")

text_or_empty : Option String → String
text_or_empty none = ""
text_or_empty (some s) = s

-- 0.0 < occurred_at < horizon
abbrev pub is_before_horizon : ℕ → ℕ → Bool
is_before_horizon occurred_at horizon = ltb 0 occurred_at && ltb occurred_at horizon

-- _horizon_drops(outbox, record), with outbox.capture_horizon
unfoldable pub horizon_drops : Option ℕ → Fields → Result Bool
unfolding occurred_at_of is_polled text_or_empty find
horizon_drops capture_horizon r =
    if not (is_polled (text_or_empty (as_text (find "capture_method" r))))
    then ok false
    else elim capture_horizon [
      | none ↦ ok false
      | some horizon ↦ do occurred_at ← occurred_at_of r; ok (is_before_horizon occurred_at horizon)
    ]

pub record Collector : Type 0 where
  pub process : Process
  pub counts : List (String × ℕ)
  pub calls_made : ℕ

-- record["payload"]["event_type"]
pub counted_type : Fields → Result String
counted_type r = do
  payload ← or_raise key_error (as_object (find "payload" r))
  or_raise key_error (as_text (find "event_type" payload))

module _ (calls : ℕ → Call) (scans : ℕ → Scan) (capture_horizon : Option ℕ) where
  -- What append_and_count does with the answer of append_if_new
  pub count_new : Fields → Result (Fields × Bool) → Collector → Result Bool × Collector
  count_new r (err e) c = (err e, c)
  count_new r (ok (stored, false)) c = (ok true, c)
  count_new r (ok (stored, true)) c = elim (counted_type r) [
    | err e ↦ (err e, c)
    | ok event_type ↦ (ok true, record c { counts = bump event_type c.counts })
  ]

  -- append_and_count(outbox, counts, record, content=..., dedup_key=...)
  unfoldable pub append_and_count : Fields → Option Bytes → String → Exec Collector Bool
  unfolding count_new counted_type
  append_and_count r content dedup_key c = elim (horizon_drops capture_horizon r) [
    | err e ↦ (err e, c)
    | ok true ↦ (ok false, c)
    | ok false ↦
        let (answer, process) =
          append (calls c.calls_made) r content (some dedup_key) (scans c.calls_made) c.process in
        count_new r answer (record c { process = process; calls_made = c.calls_made + 1 })
  ]
