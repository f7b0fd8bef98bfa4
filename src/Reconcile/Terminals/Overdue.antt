-- ===== src/Reconcile/Terminals/Overdue.antt =====
-- Exactly the overdue invocations are reported.
use hermes_flight_recorder.Base.{
  if◌then◌else◌, leb, ltb, ℕ, ◌+◌, Bool-cases, Option-cases, String, ◌≡◌, refl, sym, ap, ◌∙◌, subst,
  inl, inr, Bool, true, false, ◌&&◌, ◌||◌, not, Option, none, some, List, [], ◌∷◌, arith, ◌==◌,
  eq_iff,
}
use hermes_flight_recorder.Value.{Fields}
use hermes_flight_recorder.Envelope.Vocabulary.{contains}
use hermes_flight_recorder.Reconcile.{ReconcilePass, TerminalMissing}
use hermes_flight_recorder.Reconcile.Terminals.{
  summary_type, is_type, invocation_of, Seen, started_event, set_default, see, see_all, occurred_of,
  is_overdue, overdue_finding, overdue, missing_terminals,
}

abbrev is_about : String → Fields → Bool
is_about inv e = elim (invocation_of e) [ none ↦ false | some s ↦ s == inv ]

-- Some event completes the invocation.
abbrev pub has_completed : String → List Fields → Bool
has_completed inv [] = false
has_completed inv (e ∷ es) =
    (is_about inv e && is_type "invocation.completed" e) || has_completed inv es

-- The first event that starts the invocation
abbrev pub first_started : String → List Fields → Option Fields
first_started inv [] = none
first_started inv (e ∷ es) =
    if is_about inv e && is_type "invocation.started" e then some e else first_started inv es

-- A finding names the invocation.
abbrev pub is_reported : String → List TerminalMissing → Bool
is_reported inv [] = false
is_reported inv (m ∷ ms) = m.subject_id == inv || is_reported inv ms

or_first : Option Fields → Option Fields → Option Fields
or_first none o = o
or_first (some f) o = some f

started-set_default :
    (inv key : String) (e : Fields) (started : List (String × Fields))
    → started_event inv (set_default key e started)
      ≡ or_first (started_event inv started) (if key == inv then some e else none)
unfolding started_event set_default or_first
started-set_default inv key e [] = refl
started-set_default inv key e ((k, f) ∷ rest) =
    ground (arith, eq_iff k key, eq_iff k inv, eq_iff key inv, started-set_default inv key e rest)

-- started.setdefault keeps one entry for a key.
abbrev IsUnique : List (String × Fields) → Type 0
IsUnique [] = Unit
IsUnique ((key, e) ∷ rest) = (started_event key rest ≡ none) × IsUnique rest

apart :
    (e : Fields) (k key : String)
    → (k == key) ≡ false
    → or_first none (if key == k then some e else none) ≡ none
unfolding or_first
apart e k key q = ground (arith, eq_iff k key, eq_iff key k)

IsUnique-set_default :
    (key : String) (e : Fields) (started : List (String × Fields))
    → IsUnique started
    → IsUnique (set_default key e started)
unfolding set_default started_event
IsUnique-set_default key e [] u = (refl, tt)
IsUnique-set_default key e ((k, f) ∷ rest) u = elim (Bool-cases (k == key)) [
  | inl q ↦ rw (q, set_default) u
  | inr q ↦
      let fresh : started_event k (set_default key e rest) ≡ none =
        started-set_default k key e rest ∙ rw u.0 (apart e k key q) in
      rw (q, set_default) (fresh, IsUnique-set_default key e rest u.1)
]

one_type :
    (e : Fields) → is_type "invocation.completed" e ≡ true → is_type "invocation.started" e ≡ false
one_type e h = elim (Option-cases (summary_type e)) [
  | inl q ↦ rw (q, is_type) refl
  | inr (s, q) ↦
      let same : s ≡ "invocation.completed" =
        (eq_iff s "invocation.completed").0 (rw (q, is_type) at h) in
      rw (q, same, is_type) refl
]

is_about-none : (inv : String) (e : Fields) → invocation_of e ≡ none → is_about inv e ≡ false
is_about-none inv e q = rw (q, is_about) refl

is_about-some :
    (inv : String) (e : Fields) {id : String}
    → invocation_of e ≡ some id
    → is_about inv e ≡ (id == inv)
is_about-some inv e q = rw (q, is_about) refl

first_of : (o : Option Fields) → or_first o none ≡ o
unfolding or_first
first_of none = refl
first_of (some f) = refl

-- The completed identifiers, and the started events, after an event
see-completed :
    (inv : String) (e : Fields) (s : Seen)
    → contains inv (see e s).completed
      ≡ (is_about inv e && is_type "invocation.completed" e) || contains inv s.completed
unfolding see contains
see-completed inv e s = elim (Option-cases (invocation_of e)) [
  | inl q ↦ rw (q, see, is_about-none inv e q) refl
  | inr (id, q) ↦ elim (Bool-cases (is_type "invocation.completed" e)) [
    | inl c ↦ rw (q, c, see, is_about-some inv e q) (ground arith)
    | inr c ↦ elim (Bool-cases (is_type "invocation.started" e)) [
      | inl d ↦ rw (q, c, d, see, is_about-some inv e q) (ground arith)
      | inr d ↦ rw (q, c, d, see, is_about-some inv e q) (ground arith)
    ]
  ]
]

see-started :
    (inv : String) (e : Fields) (s : Seen)
    → started_event inv (see e s).started
      ≡ or_first
          (started_event inv s.started)
          (if is_about inv e && is_type "invocation.started" e then some e else none)
unfolding see
see-started inv e s =
    let old = started_event inv s.started in
    elim (Option-cases (invocation_of e)) [
      | inl q ↦ rw (q, see, is_about-none inv e q) (sym (first_of old))
      | inr (id, q) ↦ elim (Bool-cases (is_type "invocation.completed" e)) [
        | inl c ↦ rw (q, c, see, one_type e c, is_about-some inv e q) (ground (arith, first_of old))
        | inr c ↦ elim (Bool-cases (is_type "invocation.started" e)) [
          | inl d ↦
              rw (q, c, d, see, is_about-some inv e q)
                (started-set_default inv id e s.started ∙ ground arith)
          | inr d ↦ rw (q, c, d, see, is_about-some inv e q) (ground (arith, first_of old))
        ]
      ]
    ]

see-IsUnique : (e : Fields) (s : Seen) → IsUnique s.started → IsUnique (see e s).started
unfolding see
see-IsUnique e s u = elim (Option-cases (invocation_of e)) [
  | inl q ↦ rw (q, see) u
  | inr (id, q) ↦ elim (Bool-cases (is_type "invocation.completed" e)) [
    | inl c ↦ rw (q, c, see) u
    | inr c ↦ elim (Bool-cases (is_type "invocation.started" e)) [
      | inl d ↦ rw (q, c, d, see) (IsUnique-set_default id e s.started u)
      | inr d ↦ rw (q, c, d, see) u
    ]
  ]
]

see_all-completed :
    (inv : String) (es : List Fields) (s : Seen)
    → contains inv (see_all es s).completed ≡ has_completed inv es || contains inv s.completed
unfolding see_all
see_all-completed inv [] s = refl
see_all-completed inv (e ∷ es) s =
    see_all-completed inv es (see e s)
    ∙ rw (see-completed inv e s) (or_swap (has_completed inv es) _ (contains inv s.completed))
  where
    or_swap : (a b c : Bool) → a || (b || c) ≡ (b || a) || c
    or_swap a b c = ground arith

or_first-started :
    (inv : String) (e : Fields) (es : List Fields) (o : Option Fields)
    → or_first
        (or_first o (if is_about inv e && is_type "invocation.started" e then some e else none))
        (first_started inv es)
      ≡ or_first o (first_started inv (e ∷ es))
unfolding or_first
or_first-started inv e es (some f) = refl
or_first-started inv e es none =
    elim (Bool-cases (is_about inv e && is_type "invocation.started" e)) [
      | inl q ↦ rw q refl
      | inr q ↦ rw q refl
    ]

see_all-started :
    (inv : String) (es : List Fields) (s : Seen)
    → started_event inv (see_all es s).started
      ≡ or_first (started_event inv s.started) (first_started inv es)
unfolding see_all
see_all-started inv [] s = sym (first_of (started_event inv s.started))
see_all-started inv (e ∷ es) s =
    see_all-started inv es (see e s)
    ∙ rw (see-started inv e s) (or_first-started inv e es (started_event inv s.started))

see_all-IsUnique :
    (es : List Fields) (s : Seen) → IsUnique s.started → IsUnique (see_all es s).started
unfolding see_all
see_all-IsUnique [] s u = u
see_all-IsUnique (e ∷ es) s u = see_all-IsUnique es (see e s) (see-IsUnique e s u)

-- The time of a start is past the timeout, and not before the horizon.
abbrev pub is_late_at : ReconcilePass → Option ℕ → Bool
is_late_at ctx none = false
is_late_at ctx (some at) =
    leb ctx.horizon at && ltb (at + ctx.config.invocation_terminal_timeout) ctx.when

-- The start of an invocation, if it has one, is past its time.
abbrev pub is_late : ReconcilePass → Option Fields → Bool
is_late ctx none = false
is_late ctx (some e) = is_late_at ctx (occurred_of e)

is_overdue-is_late : (ctx : ReconcilePass) (e : Fields) → is_overdue ctx e ≡ is_late ctx (some e)
unfolding is_overdue
is_overdue-is_late ctx e = elim (Option-cases (occurred_of e)) [
  | inl q ↦ rw (q, is_overdue) refl
  | inr (at, q) ↦ rw (q, is_overdue) (ground arith)
]

abbrev is_overdue_start : ReconcilePass → Option Fields → Bool
is_overdue_start ctx none = false
is_overdue_start ctx (some e) = is_overdue ctx e

is_overdue_start-is_late :
    (ctx : ReconcilePass) (o : Option Fields) → is_overdue_start ctx o ≡ is_late ctx o
is_overdue_start-is_late ctx none = refl
is_overdue_start-is_late ctx (some e) = is_overdue-is_late ctx e

overdue-reported :
    (ctx : ReconcilePass) (inv : String) (completed : List String)
    (started : List (String × Fields))
    → IsUnique started
    → is_reported inv (overdue ctx completed started)
      ≡ not (contains inv completed) && is_overdue_start ctx (started_event inv started)
unfolding overdue overdue_finding started_event
overdue-reported ctx inv completed [] u = ground arith
overdue-reported ctx inv completed ((key, e) ∷ rest) u =
    let more = overdue-reported ctx inv completed rest u.1 in
    elim (Bool-cases (key == inv)) [
      | inl q ↦
          let same = (eq_iff key inv).0 q in
          let fresh : started_event inv rest ≡ none =
            subst (λ k. started_event k rest ≡ none) same u.0 in
          let none_later : is_reported inv (overdue ctx completed rest) ≡ false =
            more ∙ rw fresh (and_false (not (contains inv completed))) in
          let key_too : contains key completed ≡ contains inv completed =
            ap (λ k. contains k completed) same in
          elim (Bool-cases (contains inv completed)) [
            | inl c ↦ rw (q, key_too, c, overdue) none_later
            | inr c ↦ elim (Bool-cases (is_overdue ctx e)) [
              | inl d ↦
                  rw (q, key_too, c, d, overdue)
                    (ap (λ b. b || is_reported inv (overdue ctx completed rest)) q)
              | inr d ↦ rw (q, key_too, c, d, overdue) none_later
            ]
          ]
      | inr q ↦ elim (Bool-cases (contains key completed)) [
        | inl c ↦ rw (q, c, overdue) more
        | inr c ↦ elim (Bool-cases (is_overdue ctx e)) [
          | inl d ↦
              rw (q, c, d, overdue)
                (ap (λ b. b || is_reported inv (overdue ctx completed rest)) q ∙ more)
          | inr d ↦ rw (q, c, d, overdue) more
        ]
      ]
    ]
  where
    and_false : (b : Bool) → b && false ≡ false
    and_false b = ground arith

-- Missing terminals are the overdue invocations and no others: an invocation is reported if and
-- only if no event completes it and its first start has a time that is past the timeout and not
-- before the horizon.
pub missing_terminals-is_late :
    (ctx : ReconcilePass) (inv : String) (events : List Fields)
    → is_reported inv (missing_terminals ctx events)
      ≡ not (has_completed inv events) && is_late ctx (first_started inv events)
unfolding missing_terminals contains or_first started_event
missing_terminals-is_late ctx inv events =
    let s : Seen = record { completed = []; started = [] } in
    let all_seen = see_all events s in
    overdue-reported ctx inv all_seen.completed all_seen.started (see_all-IsUnique events s tt)
    ∙ rw
        (
          see_all-completed inv events s,
          see_all-started inv events s,
          or_false (has_completed inv events),
          is_overdue_start-is_late ctx (first_started inv events),
        )
        refl
  where
    or_false : (b : Bool) → b || false ≡ b
    or_false b = ground arith
