-- ===== src/Ledger/Chain.antt =====
-- The invariant of a ledger: a hash chain, with a lookup table and an index that agree with it.
use mathlib.Core.Path.{subst}
use cashew.Prelude.{
  ℕ, zero, suc, ◌<◌, ◌≡◌, refl, sym, ap, ◌∙◌, true, false, Bytes, bytes_eq, bytes_eq_iff,
  bytes_ordered, none, some, List, [], ◌∷◌, ◌++◌, length, get_elem?, get_elem?-append,
  get_elem?-append_left, get_elem?_bound, arith, Bool-cases, inl, inr, ◌⊎◌, some_inj,
}
use cashew.Prelude.Map.{find, find-put}
use cashew.Crypto.{Crypto}
use cashew.Ledger.EventType.{EventType}
use cashew.Ledger.Event.{LedgerEvent, compute_hash}
use cashew.Ledger.Index
use cashew.Ledger.Index.{LedgerIndex, rebuild_from_events, add_events}
use cashew.Ledger.Store.{
  Ledger, zero_hash, tip, too_late, chain_checks, verify_event_chain, has_event, verify_event,
  append, add_event, add_external_event, create_event, record_event,
}

-- Each event names the hash of the one before it, the first one `prev`.
abbrev pub Linked : Crypto → Bytes → List LedgerEvent → Type 0
Linked crypto prev [] = Unit {0}
Linked crypto prev (e ∷ es) = (e.previous_hash ≡ prev) × Linked crypto (compute_hash crypto e) es

pub record IsStore (crypto : Crypto) (l : Ledger) : Type 0 where
  pub linked : Linked crypto zero_hash l.events
  pub placed :
      (id : Bytes) (i : ℕ)
      → find id l.event_lookup ≡ some i
      → (e : LedgerEvent) × (get_elem? l.events i ≡ some e) × (e.event_id ≡ id)
  pub found :
      (i : ℕ) (e : LedgerEvent)
      → get_elem? l.events i ≡ some e
      → find e.event_id l.event_lookup ≡ some i
  pub indexed : l.index ≡ rebuild_from_events l.events

pub record IsLedger (crypto : Crypto) (l : Ledger) : Type 0 where
  pub store : IsStore crypto l
  pub open store use *
  pub tip_hash : l.latest_hash ≡ tip crypto zero_hash l.events

Linked-push :
    (crypto : Crypto) (prev : Bytes) (es : List LedgerEvent) (e : LedgerEvent)
    → Linked crypto prev es
    → e.previous_hash ≡ tip crypto prev es
    → Linked crypto prev (es ++ e ∷ [])
unfolding tip
Linked-push crypto prev [] e h p = (p, tt)
Linked-push crypto prev (x ∷ es) e (hx, h) p =
    (hx, Linked-push crypto (compute_hash crypto x) es e h p)

pub tip-push :
    (crypto : Crypto) (prev : Bytes) (es : List LedgerEvent) (e : LedgerEvent)
    → tip crypto prev (es ++ e ∷ []) ≡ compute_hash crypto e
unfolding tip
tip-push crypto prev [] e = refl
tip-push crypto prev (x ∷ es) e = tip-push crypto (compute_hash crypto x) es e

add_events-push :
    (es : List LedgerEvent) (e : LedgerEvent) (x : LedgerIndex)
    → add_events (es ++ e ∷ []) x ≡ Index.add_event e (add_events es x)
unfolding add_events
add_events-push [] e x = refl
add_events-push (y ∷ es) e x = add_events-push es e (Index.add_event y x)

-- An event of the longer list is an old one or the new one.
get_elem?-push :
    (es : List LedgerEvent) (e x : LedgerEvent) (i : ℕ)
    → get_elem? (es ++ e ∷ []) i ≡ some x
    → ((i < length es) × (get_elem? es i ≡ some x)) ⊎ ((i ≡ length es) × (x ≡ e))
get_elem?-push [] e x zero h = inr (refl, sym (some_inj h))
get_elem?-push [] e x (suc i) h = absurd (ground (arith, h))
get_elem?-push (y ∷ es) e x zero h = inl (omega arith, h)
get_elem?-push (y ∷ es) e x (suc i) h = ground (arith, get_elem?-push es e x i h)

module _ (crypto : Crypto) (e : LedgerEvent) (l : Ledger) (v : IsStore crypto l) where
  pub append-IsStore :
      e.previous_hash ≡ tip crypto zero_hash l.events
      → find e.event_id l.event_lookup ≡ none
      → IsStore crypto (append crypto e l)
  unfolding append rebuild_from_events
  append-IsStore chained new = record {
    linked = Linked-push crypto zero_hash l.events e v.linked chained;
    placed = λ id i h. elim (Bool-cases (bytes_eq e.event_id id)) [
      | inl same ↦
          let at : length l.events ≡ i =
            ground (arith, find-put e.event_id id (length l.events) l.event_lookup, h, same) in
          (
            e,
            subst (λ n. get_elem? (l.events ++ e ∷ []) n ≡ some e) at
                (get_elem?-append l.events e []),
            (bytes_eq_iff e.event_id id).0 same,
          )
      | inr other ↦
          let old : find id l.event_lookup ≡ some i =
            ground (arith, find-put e.event_id id (length l.events) l.event_lookup, h, other) in
          let (x, at, named) = v.placed id i old in
          (x, get_elem?-append_left l.events (e ∷ []) i (get_elem?_bound l.events i at) ∙ at, named)
    ];
    found = λ i x h. elim (get_elem?-push l.events e x i h) [
      | inl (_, old) ↦ ground (
        arith,
        find-put e.event_id x.event_id (length l.events) l.event_lookup,
        v.found i x old,
        bytes_eq_iff e.event_id x.event_id,
        new,
      )
      | inr (at, same) ↦ ground (
        arith,
        find-put e.event_id x.event_id (length l.events) l.event_lookup,
        at,
        same,
        bytes_eq_iff e.event_id x.event_id,
      )
    ];
    indexed = ap (Index.add_event e) v.indexed ∙ sym (add_events-push l.events e Index.empty);
  }

append-IsLedger :
    (crypto : Crypto) (e : LedgerEvent) (l : Ledger)
    → IsStore crypto l
    → e.previous_hash ≡ tip crypto zero_hash l.events
    → find e.event_id l.event_lookup ≡ none
    → IsLedger crypto (append crypto e l)
unfolding append
append-IsLedger crypto e l v chained new = record {
  store = append-IsStore crypto e l v chained new;
  tip_hash = sym (tip-push crypto zero_hash l.events e);
}

chain_checks_sound :
    (crypto : Crypto) (now : ℕ) (es : List LedgerEvent) (e : LedgerEvent)
    → chain_checks crypto now es e ≡ true
    → e.previous_hash ≡ tip crypto zero_hash es
unfolding chain_checks tip
chain_checks_sound crypto now [] e h = (bytes_eq_iff e.previous_hash zero_hash).0 h
chain_checks_sound crypto now (x ∷ xs) e h =
    let prev = tip crypto (compute_hash crypto x) xs in
    (bytes_eq_iff e.previous_hash prev).0 (ground arith)

verify_event_sound :
    (crypto : Crypto) (now : ℕ) (e : LedgerEvent) (l : Ledger)
    → verify_event crypto now e l ≡ true
    → (e.previous_hash ≡ tip crypto zero_hash l.events)
      × (find e.event_id l.event_lookup ≡ none)
      × (too_late now e ≡ false)
unfolding verify_event verify_event_chain
verify_event_sound crypto now e l h =
    (chain_checks_sound crypto now l.events e (ground arith), ground arith, ground arith)

-- Adding an event, accepted or not, keeps the invariant.
add_event-IsLedger :
    (crypto : Crypto) (now : ℕ) (e : LedgerEvent) (l : Ledger)
    → IsLedger crypto l
    → IsLedger crypto (add_event crypto now e l).0
unfolding add_event
add_event-IsLedger crypto now e l v = elim (Bool-cases (verify_event crypto now e l)) [
  | inl fine ↦
      let (chained, new, _) = verify_event_sound crypto now e l fine in
      rw fine (append-IsLedger crypto e l v.store chained new)
  | inr bad ↦ rw bad v
]

pub add_external_event-IsLedger :
    (crypto : Crypto) (now : ℕ) (e : LedgerEvent) (l : Ledger)
    → IsLedger crypto l
    → IsLedger crypto (add_external_event crypto now e l).0
unfolding add_external_event
add_external_event-IsLedger crypto now e l v =
    elim (Bool-cases (verify_event_chain crypto now e l)) [
      | inl linked ↦ elim (Bool-cases (has_event e.event_id l)) [
        | inl old ↦ rw (linked, old) v
        | inr new ↦ rw (linked, new) (add_event-IsLedger crypto now e l v)
      ]
      | inr broken ↦ rw broken v
    ]

pub record_event-IsLedger :
    (crypto : Crypto) (now : ℕ) (type : EventType) (payload : Bytes) (l : Ledger)
    → IsLedger crypto l
    → IsLedger crypto (record_event crypto now type payload l).0
unfolding record_event
record_event-IsLedger crypto now type payload l v =
    add_event-IsLedger crypto now (create_event crypto now type payload l).0
      (create_event crypto now type payload l).1
      (record {
        store = record {
          linked = v.linked;
          placed = v.placed;
          found = v.found;
          indexed = v.indexed;
        };
        tip_hash = v.tip_hash;
      })
