-- ===== src/Outbox/Prune/Dedup.antt =====
-- A deduplication key that is known stays known when its event is pruned.
use hermes_flight_recorder.Base.{
  Bool-cases, Option-cases, any, keep, keep-true, keep-false, ℤ, ℕ, String, ◌≡◌, refl, ap, ◌∙◌,
  subst, ◌⊎◌, inl, inr, Bool, true, not, Option, some, List, [], ◌∷◌, ◌++◌, arith,
}
use hermes_flight_recorder.Result.{
  ok, Result-cases, >>=-eq-ok, ok-injective, require, integrity_error,
}
use hermes_flight_recorder.Outbox.State.{Event, Tombstone, Outbox}
use hermes_flight_recorder.Outbox.Insert.{same_key}
use hermes_flight_recorder.Outbox.Order.{Above-keep, order_by-Above}
use hermes_flight_recorder.Outbox.Sound.{IsSound}
use hermes_flight_recorder.Outbox.Append.{find_event, find_tombstone, has_dedup_key}
use hermes_flight_recorder.Outbox.Prune.{
  victims, is_in, is_kept, store_tombstones, tombstone_of, clashes, remove, prune_delivered, settle,
  check_arguments, Storage,
}
use hermes_flight_recorder.Outbox.Prune.Keeps.{remove-eq-ok}
use hermes_flight_recorder.Outbox.Prune.Rows.{tombstone_of-IsTombstoneOf}

abbrev InEvents : String → List Event → Type 0
InEvents key es = (e : Event) × (find_event key es ≡ some e)

abbrev InTombstones : String → List Tombstone → Type 0
InTombstones key ts = (t : Tombstone) × (find_tombstone key ts ≡ some t)

has_dedup_key-cases :
    (key : String) (o : Outbox)
    → has_dedup_key key o ≡ true
    → InEvents key o.events ⊎ InTombstones key o.tombstones
unfolding has_dedup_key
has_dedup_key-cases key o h = elim (Option-cases (find_event key o.events)) [
  | inr (e, f) ↦ inl (e, f)
  | inl f ↦ elim (Option-cases (find_tombstone key o.tombstones)) [
    | inr (t, g) ↦ inr (t, g)
    | inl g ↦ absurd (cc (rw (f, g, has_dedup_key) at h))
  ]
]

InEvents-has_dedup_key :
    (key : String) (o : Outbox) → InEvents key o.events → has_dedup_key key o ≡ true
unfolding has_dedup_key
InEvents-has_dedup_key key o (e, f) = rw (f, has_dedup_key) refl

InTombstones-has_dedup_key :
    (key : String) (o : Outbox) → InTombstones key o.tombstones → has_dedup_key key o ≡ true
unfolding has_dedup_key
InTombstones-has_dedup_key key o (t, g) = elim (Option-cases (find_event key o.events)) [
  | inr (e, f) ↦ rw (f, has_dedup_key) refl
  | inl f ↦ rw (f, g, has_dedup_key) refl
]

-- The event of a key is on one side of a selection.
InEvents-split :
    (key : String) (p : Event → Bool) (es : List Event)
    → InEvents key es
    → InEvents key (keep p es) ⊎ InEvents key (keep (λ e. not (p e)) es)
unfolding find_event
InEvents-split key p [] (e, h) = absurd cc
InEvents-split key p (f ∷ es) (e, h) = elim (Bool-cases (same_key f.dedup_key (some key))) [
  | inl k ↦ elim (Bool-cases (p f)) [
    | inl q ↦ inl (f, ap (find_event key) (keep-true p f es q) ∙ rw k refl)
    | inr q ↦ inr (f, ap (find_event key) (keep-true (λ x. not (p x)) f es (rw q refl)) ∙ rw k refl)
  ]
  | inr k ↦
      let h' : find_event key es ≡ some e = rw k at h in
      elim (InEvents-split key p es (e, h')) [
        | inl (s, q) ↦ inl (elim (Bool-cases (p f)) [
          | inl b ↦ (s, ap (find_event key) (keep-true p f es b) ∙ rw k q)
          | inr b ↦ (s, ap (find_event key) (keep-false p f es b) ∙ q)
        ])
        | inr (s, q) ↦ inr (elim (Bool-cases (p f)) [
          | inl b ↦ (s, ap (find_event key) (keep-false (λ x. not (p x)) f es (rw b refl)) ∙ q)
          | inr b ↦ (s, ap (find_event key) (keep-true (λ x. not (p x)) f es (rw b refl)) ∙ rw k q)
        ])
      ]
]

find_tombstone-left :
    (key : String) (ts us : List Tombstone) (t : Tombstone)
    → find_tombstone key ts ≡ some t
    → find_tombstone key (ts ++ us) ≡ some t
unfolding find_tombstone
find_tombstone-left key [] us t h = absurd cc
find_tombstone-left key (u ∷ ts) us t h = ground (arith, find_tombstone-left key ts us t)

find_tombstone-last :
    (key : String) (ts : List Tombstone) (t : Tombstone)
    → same_key t.dedup_key (some key) ≡ true
    → InTombstones key (ts ++ t ∷ [])
unfolding find_tombstone
find_tombstone-last key [] t h = (t, rw h refl)
find_tombstone-last key (u ∷ ts) t h = elim (Bool-cases (same_key u.dedup_key (some key))) [
  | inl k ↦ (u, rw k refl)
  | inr k ↦ let (s, q) = find_tombstone-last key ts t h in (s, rw k q)
]

store_tombstones-InTombstones :
    (key : String) (es : List Event) (ts : List Tombstone) {ts' : List Tombstone}
    → store_tombstones es ts ≡ ok ts'
    → InEvents key es ⊎ InTombstones key ts
    → InTombstones key ts'
unfolding store_tombstones find_event
store_tombstones-InTombstones key [] ts h (inl (e, q)) = absurd cc
store_tombstones-InTombstones key [] ts h (inr known) =
    subst (InTombstones key) (ok-injective h) known
store_tombstones-InTombstones key (e ∷ es) ts h known =
    let (t, q, h₁) = >>=-eq-ok (tombstone_of e) _ h in
    let (u, _, h₂) = >>=-eq-ok (require (not (any (clashes t) ts)) integrity_error) _ h₁ in
    let same = tombstone_of-IsTombstoneOf e q in
    store_tombstones-InTombstones key es (ts ++ t ∷ []) h₂ (elim known [
      | inr (s, k) ↦ inr (s, find_tombstone-left key ts (t ∷ []) s k)
      | inl (s, k) ↦ elim (Bool-cases (same_key e.dedup_key (some key))) [
        | inl b ↦
            inr (find_tombstone-last key ts t (ap (λ d. same_key d (some key)) same.dedup ∙ b))
        | inr b ↦ inl (s, rw b at k)
      ]
    ])

remove-has_dedup_key :
    (key : String) (vs : List Event) (o : Outbox) {o' : Outbox}
    → IsSound o
    → remove vs o ≡ ok o'
    → has_dedup_key key o ≡ true
    → has_dedup_key key o' ≡ true
unfolding remove
remove-has_dedup_key key [] o s h known =
    subst (λ x. has_dedup_key key x ≡ true) (ok-injective h) known
remove-has_dedup_key key (v ∷ vs) o s h known =
    let (ts, q, same) = remove-eq-ok v vs o h in
    let chosen = is_in (v ∷ vs) in
    let gone = keep chosen o.events in
    let o₁ : Outbox = record o { events = keep (is_kept (v ∷ vs)) o.events; tombstones = ts } in
    let q' : store_tombstones gone o.tombstones ≡ ok ts =
      subst (λ xs. store_tombstones xs o.tombstones ≡ ok ts)
        (order_by-Above 0 gone (Above-keep chosen 0 o.events s.ordered)) q in
    subst (λ x. has_dedup_key key x ≡ true) same
      (elim (has_dedup_key-cases key o known) [
        | inr t ↦
            InTombstones-has_dedup_key key o₁
              (store_tombstones-InTombstones key gone o.tombstones q' (inr t))
        | inl e ↦ elim (InEvents-split key chosen o.events e) [
          | inl e' ↦
              InTombstones-has_dedup_key key o₁
                (store_tombstones-InTombstones key gone o.tombstones q' (inl e'))
          | inr e' ↦ InEvents-has_dedup_key key o₁ e'
        ]
      ])

-- On a sound outbox, a deduplication key that is known before a prune is known after it, whether
-- the prune returns or raises: an event that was captured once is not captured again because it
-- was pruned.
pub prune_delivered-has_dedup_key :
    (storage : Storage) (cursor : ℤ) (older_than : Option ℤ) (max_bytes : Option ℕ) (vacuum : Bool)
    (o : Outbox) (key : String)
    → IsSound o
    → has_dedup_key key o ≡ true
    → has_dedup_key key (prune_delivered storage cursor older_than max_bytes vacuum o).1 ≡ true
unfolding prune_delivered settle
prune_delivered-has_dedup_key storage cursor older_than max_bytes vacuum o key s known =
    elim (Result-cases (check_arguments cursor max_bytes)) [
      | inr (e, f) ↦ rw (f, prune_delivered) known
      | inl (u, f) ↦
          let vs = victims cursor older_than max_bytes o.events in
          elim (Result-cases (remove vs o)) [
            | inl (o', g) ↦
                rw (f, prune_delivered, g, settle) (remove-has_dedup_key key vs o s g known)
            | inr (e, g) ↦ rw (f, prune_delivered, g, settle) known
          ]
    ]
