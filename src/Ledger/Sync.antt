-- ===== src/Ledger/Sync.antt =====
-- Events from peers, and events of the node's own.
use mathlib.Core.Path.{subst}
use cashew.Prelude.{
  ℕ, zero, suc, ◌+◌, ◌%◌, ◌^◌, ◌<◌, ◌≡◌, ◌≢◌, refl, sym, Bool, true, false, not, ◌&&◌, ◌||◌, Bytes,
  bytes_eq, bytes_eq_iff, bytes_ordered, none, some, some_inj, List, [], ◌∷◌, ◌++◌, get_elem?,
  arith, ltb, leb, le→ltb, if◌then◌else◌, Bool-cases, Option-cases, inl, inr,
}
use cashew.Prelude.Map.{find}
use cashew.Crypto.{Crypto}
use cashew.Ledger.EventType.{EventType}
use cashew.Ledger.Event.{LedgerEvent, compute_hash}
use cashew.Ledger.Store.{
  Ledger, zero_hash, tip, too_late, chain_checks, verify_event_chain, has_event, verify_event,
  append, add_event, add_external_event, new_event_id, create_event, record_event, max_future_skew,
}
use cashew.Ledger.Chain.{IsStore, IsLedger, tip-push}

chain_checks_nonempty :
    (crypto : Crypto) (now : ℕ) (es : List LedgerEvent) (e : LedgerEvent)
    → es ≢ []
    → chain_checks crypto now es e ≡ true
    → too_late now e ≡ false
unfolding chain_checks
chain_checks_nonempty crypto now [] e some_events h = absurd (some_events refl)
chain_checks_nonempty crypto now (x ∷ xs) e some_events h = ground arith

pub add_external_event-verified :
    (crypto : Crypto) (now : ℕ) (e : LedgerEvent) (l : Ledger)
    → l.events ≢ []
    → add_external_event crypto now e l
      ≡ (if verify_event crypto now e l then (append crypto e l, true) else (l, false))
unfolding add_external_event add_event verify_event verify_event_chain
add_external_event-verified crypto now e l some_events =
    ground (arith, chain_checks_nonempty crypto now l.events e some_events)

chain_checks-push :
    (crypto : Crypto) (now : ℕ) (earlier : List LedgerEvent) (last e : LedgerEvent)
    → chain_checks crypto now (earlier ++ last ∷ []) e
      ≡ bytes_eq e.previous_hash (compute_hash crypto last) && not (too_late now e)
unfolding chain_checks
chain_checks-push crypto now [] last e = unfold tip in ground arith
chain_checks-push crypto now (x ∷ xs) last e =
    ground (arith, tip-push crypto zero_hash (x ∷ xs) last)

-- Whether an event of the list has the id.
abbrev pub holds_id : Bytes → List LedgerEvent → Bool
holds_id id [] = false
holds_id id (x ∷ xs) = bytes_eq x.event_id id || holds_id id xs

holds_id_at :
    (es : List LedgerEvent) (i : ℕ) (e : LedgerEvent)
    → get_elem? es i ≡ some e
    → holds_id e.event_id es ≡ true
holds_id_at [] i e h = absurd (ground (arith, h))
holds_id_at (x ∷ xs) zero e h = ground (arith, some_inj h, bytes_eq_iff x.event_id e.event_id)
holds_id_at (x ∷ xs) (suc i) e h = ground (arith, holds_id_at xs i e h)

held_at :
    (id : Bytes) (es : List LedgerEvent)
    → holds_id id es ≡ true
    → (i : ℕ) × (e : LedgerEvent) × (get_elem? es i ≡ some e) × (e.event_id ≡ id)
held_at id [] h = absurd (ground (arith, h))
held_at id (x ∷ xs) h = elim (Bool-cases (bytes_eq x.event_id id)) [
  | inl same ↦ (0, x, refl, (bytes_eq_iff x.event_id id).0 same)
  | inr other ↦
      let (i, e, at, named) = held_at id xs (ground (arith, h, other)) in (suc i, e, at, named)
]

has_event-holds_id :
    (crypto : Crypto) (id : Bytes) (l : Ledger)
    → IsStore crypto l
    → has_event id l ≡ holds_id id l.events
unfolding has_event
has_event-holds_id crypto id l v = elim (Option-cases (find id l.event_lookup)) [
  | inr (i, known) ↦
      let (e, at, named) = v.placed id i known in
      rw (known, has_event)
        (sym (subst (λ x. holds_id x l.events ≡ true) named (holds_id_at l.events i e at)))
  | inl unknown ↦ elim (Bool-cases (holds_id id l.events)) [
    | inr absent ↦ rw (unknown, absent, has_event) refl
    | inl held ↦
        let (i, e, at, named) = held_at id l.events held in
        absurd (ground (arith, v.found i e at, named, unknown))
  ]
]

-- On a ledger whose lookup table agrees with its events, the last of which is `last`,
-- add_external_event answers true exactly when the event names the hash of `last`, is dated at most
-- 300 seconds after now (on the 64-bit clock) and has the id of none of the events; then it is appended,
-- and otherwise nothing changes.
pub add_external_event_exact :
    (crypto : Crypto) (now : ℕ) (e : LedgerEvent) (l : Ledger) (earlier : List LedgerEvent)
    (last : LedgerEvent)
    → IsStore crypto l
    → l.events ≡ earlier ++ last ∷ []
    → add_external_event crypto now e l ≡ (
        if bytes_eq e.previous_hash (compute_hash crypto last)
          && (leb e.timestamp ((now + 300) % 2 ^ 64) && not (holds_id e.event_id l.events))
        then (append crypto e l, true)
        else (l, false))
unfolding add_external_event add_event verify_event verify_event_chain
add_external_event_exact crypto now e l earlier last v ends =
    let chained : chain_checks crypto now l.events e
        ≡ bytes_eq e.previous_hash (compute_hash crypto last) && not (too_late now e) =
      rw ends (chain_checks-push crypto now earlier last e) in
    let timely : not (too_late now e) ≡ leb e.timestamp ((now + 300) % 2 ^ 64) =
      unfold too_late in ground arith in
    ground (arith, chained, timely, has_event-holds_id crypto e.event_id l v)

-- On an empty ledger, an event with a new id that names the zero hash and lies more than five minutes
-- in the future (on the 64-bit clock) is reported as added, and the ledger is unchanged.
pub add_external_event_lost :
    (crypto : Crypto) (now : ℕ) (e : LedgerEvent) (l : Ledger)
    → l.events ≡ []
    → e.previous_hash ≡ zero_hash
    → find e.event_id l.event_lookup ≡ none
    → (now + max_future_skew) % 2 ^ 64 < e.timestamp
    → add_external_event crypto now e l ≡ (l, true)
unfolding add_external_event add_event verify_event has_event too_late
add_external_event_lost crypto now e l empty genesis new late =
    let linked : verify_event_chain crypto now e l ≡ true =
      unfold verify_event_chain chain_checks in
      rw empty ((bytes_eq_iff e.previous_hash zero_hash).1 genesis) in
    ground (arith, linked, new)

chain_checks_complete :
    (crypto : Crypto) (now : ℕ) (es : List LedgerEvent) (e : LedgerEvent)
    → e.previous_hash ≡ tip crypto zero_hash es
    → too_late now e ≡ false
    → chain_checks crypto now es e ≡ true
unfolding chain_checks tip
chain_checks_complete crypto now [] e chained timely =
    (bytes_eq_iff e.previous_hash zero_hash).1 chained
chain_checks_complete crypto now (x ∷ xs) e chained timely =
    rw ((bytes_eq_iff e.previous_hash _).1 chained, timely)

pub verify_event_complete :
    (crypto : Crypto) (now : ℕ) (e : LedgerEvent) (l : Ledger)
    → e.previous_hash ≡ tip crypto zero_hash l.events
    → find e.event_id l.event_lookup ≡ none
    → too_late now e ≡ false
    → verify_event crypto now e l ≡ true
unfolding verify_event verify_event_chain has_event
verify_event_complete crypto now e l chained new timely =
    ground (arith, chain_checks_complete crypto now l.events e chained timely, new, timely)

-- A local record is never refused: in a ledger that satisfies its invariant, at a time more than five
-- minutes before the end of the 64-bit clock, an event made under a new id is appended as it was made,
-- its id is returned and the counter of ids moves on.
record_event_appends :
    (crypto : Crypto) (now : ℕ) (type : EventType) (payload : Bytes) (l : Ledger)
    → IsLedger crypto l
    → now + max_future_skew < 2 ^ 64
    → find (new_event_id crypto now l) l.event_lookup ≡ none
    → record_event crypto now type payload l ≡ (
      append crypto
          (create_event crypto now type payload l).0
          (record l { event_counter = (l.event_counter + 1) % 2 ^ 64 }),
      new_event_id crypto now l,
    )
unfolding record_event add_event too_late
record_event_appends crypto now type payload l v fits new =
    let e = (create_event crypto now type payload l).0 in
    let l' = (create_event crypto now type payload l).1 in
    let fine : verify_event crypto now e l' ≡ true =
      verify_event_complete crypto now e l' v.tip_hash new (timely now fits) in
    rw fine
  where
    timely : (t : ℕ) → t + max_future_skew < 2 ^ 64 → ltb ((t + max_future_skew) % 2 ^ 64) t ≡ false
    timely t h = le→ltb ((t + max_future_skew) % 2 ^ 64) t (omega arith)
