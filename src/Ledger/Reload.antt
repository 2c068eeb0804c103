-- ===== src/Ledger/Reload.antt =====
-- Loading what was saved.
use mathlib.Core.Path.{subst}
use cashew.Prelude.{
  ℕ, ◌^◌, ◌<◌, ◌≡◌, ◌≢◌, refl, sym, ap, ◌∙◌, true, false, Bytes, bytes_eq, bytes_eq_iff,
  bytes_ordered, none, some, List, [], ◌∷◌, ◌++◌, All, length, get_elem?, get_elem?-append,
  get_elem?-append_left, get_elem?_bound, append_assoc, append-nil, arith, Option-cases, inl, inr,
  some_inj,
}
use cashew.Prelude.Map.{find}
use cashew.Crypto.{Crypto}
use cashew.Codec.{le_bytes}
use cashew.Codec.Laws.{read_scalar-append, read_blob-append, read_scalar_end}
use cashew.Ledger.EventType.{EventType}
use cashew.Ledger.Event.{LedgerEvent, to_bytes, from_bytes, compute_hash}
use cashew.Ledger.RoundTrip.{IsEvent, from_bytes-to_bytes}
use cashew.Ledger.Index.{rebuild_from_events, add_events}
use cashew.Ledger.Store.{
  Ledger, zero_hash, tip, too_late, verify_event_chain, chain_checks, verify_event, append,
  add_event, record_event, create_event,
}
use cashew.Ledger.Chain.{IsStore, Linked, append-IsStore, tip-push}
use cashew.Ledger.Sync.{verify_event_complete}
use cashew.Ledger.File.{saved_events, save_to_file, clear, load_event, load_events, load_from_file}

-- Loading an event that is accepted appends it.
load_event_accepted :
    (crypto : Crypto) (now : ℕ) (e : LedgerEvent) (l : Ledger)
    → IsEvent e
    → verify_event crypto now e l ≡ true
    → load_event crypto now (to_bytes e) l ≡ append crypto e l
unfolding load_event add_event
load_event_accepted crypto now e l v fine =
    let back : from_bytes (to_bytes e) ≡ some e =
      subst (λ b. from_bytes b ≡ some e) (append-nil (to_bytes e)) (from_bytes-to_bytes e [] v) in
    rw (back, load_event) (rw fine)

-- The ids of a ledger with its invariant are distinct: the event behind a prefix is not in a table of
-- the prefix.
new_behind_prefix :
    (crypto : Crypto) (l p : Ledger) (e : LedgerEvent) (es : List LedgerEvent)
    → IsStore crypto l
    → IsStore crypto p
    → p.events ++ e ∷ es ≡ l.events
    → find e.event_id p.event_lookup ≡ none
new_behind_prefix crypto l p e es v w split = elim (Option-cases (find e.event_id p.event_lookup)) [
  | inl missing ↦ missing
  | inr (j, at) ↦
      let (x, here, same) = w.placed e.event_id j at in
      let bound = get_elem?_bound p.events j here in
      let first : find x.event_id l.event_lookup ≡ some j = v.found j x (
        subst (λ z. get_elem? z j ≡ some x) split
          (get_elem?-append_left p.events (e ∷ es) j bound ∙ here)) in
      let second : find e.event_id l.event_lookup ≡ some (length p.events) =
        v.found (length p.events) e (
          subst (λ z. get_elem? z (length p.events) ≡ some e) split
            (get_elem?-append p.events e es)) in
      absurd (ground (arith, first, second, same, bound))
]

events-append :
    (crypto : Crypto) (e : LedgerEvent) (p : Ledger) (es : List LedgerEvent)
    → (append crypto e p).events ++ es ≡ p.events ++ e ∷ es
unfolding append
events-append crypto e p es = append_assoc p.events (e ∷ []) es

Linked-append :
    (crypto : Crypto) (e : LedgerEvent) (p : Ledger) (es : List LedgerEvent)
    → Linked crypto (compute_hash crypto e) es
    → Linked crypto (tip crypto zero_hash (append crypto e p).events) es
unfolding append
Linked-append crypto e p es h =
    subst (λ t. Linked crypto t es) (sym (tip-push crypto zero_hash p.events e)) h

-- The saved events that are still ahead, loaded behind those that are in place.
load_events_saved :
    (crypto : Crypto) (now : ℕ) (l p : Ledger) (es : List LedgerEvent)
    → IsStore crypto l
    → IsStore crypto p
    → p.events ++ es ≡ l.events
    → Linked crypto (tip crypto zero_hash p.events) es
    → All IsEvent es
    → All (λ e. length (to_bytes e) < 256 ^ 4) es
    → All (λ e. too_late now e ≡ false) es
    → (q : Ledger) × (load_events crypto now (length es) (saved_events es) p ≡ some q)
      × (q.events ≡ l.events)
      × IsStore crypto q
unfolding load_events saved_events
load_events_saved crypto now l p [] v w split linked events sizes timely =
    (p, refl, sym (append-nil p.events) ∙ split, w)
load_events_saved crypto now l p (e ∷ es) v w split (prev, linked) (ev, evs) (sz, szs) (tm, tms) =
    let new = new_behind_prefix crypto l p e es v w split in
    let fine = verify_event_complete crypto now e p prev new tm in
    let (q, loaded, same, s) =
      load_events_saved crypto now l (append crypto e p) es v (append-IsStore crypto e p w prev new)
        (events-append crypto e p es ∙ split) (Linked-append crypto e p es linked) evs szs tms in
    (
      q,
      rw
          (
            read_scalar-append 4 (length (to_bytes e)) (to_bytes e ++ saved_events es) sz,
            read_blob-append (length (to_bytes e)) (to_bytes e) (saved_events es) refl,
            load_event_accepted crypto now e p ev fine,
          )
          loaded,
      same,
      s,
    )

clear-IsStore : (crypto : Crypto) (l : Ledger) → IsStore crypto (clear l)
unfolding clear find rebuild_from_events add_events
clear-IsStore crypto l = record {
  linked = tt;
  placed = λ id i h. absurd (ground (arith, h));
  found = λ i e h. absurd (ground (arith, h));
  indexed = refl;
}

load_cleared :
    (crypto : Crypto) (now : ℕ) (l l₀ : Ledger)
    → IsStore crypto l
    → All IsEvent l.events
    → All (λ e. length (to_bytes e) < 256 ^ 4) l.events
    → All (λ e. too_late now e ≡ false) l.events
    → (q : Ledger) × (load_events crypto now (length l.events) (saved_events l.events) (clear l₀)
        ≡ some q)
      × (q.events ≡ l.events)
      × IsStore crypto q
unfolding clear tip
load_cleared crypto now l l₀ v =
    load_events_saved crypto now l (clear l₀) l.events v (clear-IsStore crypto l₀) refl v.linked

-- A ledger that is a hash chain, with a lookup table and an index that agree with its events, is
-- saved; loaded by any node, the file gives a ledger with the same events, which is a hash chain with
-- a lookup table and an index that agree with them. The events have the widths of their C++ types,
-- their sizes fit the 32-bit prefix, their number fits the 64-bit count, and none is more than five
-- minutes in the future of the clock at loading.
pub load_from_file-save_to_file :
    (crypto : Crypto) (now : ℕ) (l l₀ : Ledger)
    → IsStore crypto l
    → All IsEvent l.events
    → All (λ e. length (to_bytes e) < 256 ^ 4) l.events
    → All (λ e. too_late now e ≡ false) l.events
    → length l.events < 256 ^ 8
    → (q : Ledger) × (load_from_file crypto now (save_to_file l) l₀ ≡ some q)
      × (q.events ≡ l.events)
      × IsStore crypto q
unfolding load_from_file save_to_file
load_from_file-save_to_file crypto now l l₀ v events sizes timely count =
    let (q, loaded, same, s) = load_cleared crypto now l l₀ v events sizes timely in
    (q, rw (read_scalar-append 8 (length l.events) (saved_events l.events) count) loaded, same, s)

-- On an empty ledger with another latest hash than the zero hash, a local record is refused.
record_event_refused :
    (crypto : Crypto) (now : ℕ) (type : EventType) (payload : Bytes) (p : Ledger)
    → p.events ≡ []
    → p.latest_hash ≢ zero_hash
    → record_event crypto now type payload p
      ≡ ((create_event crypto now type payload p).1, zero_hash)
unfolding record_event add_event verify_event verify_event_chain
record_event_refused crypto now type payload p empty stale =
    let unequal : bytes_eq p.latest_hash zero_hash ≡ false =
      ground (arith, bytes_eq_iff p.latest_hash zero_hash, stale) in
    let broken : chain_checks crypto now p.events (create_event crypto now type payload p).0
        ≡ false =
      rw empty (unfold chain_checks create_event in unequal) in
    ground (arith, broken)

load_empty :
    (crypto : Crypto) (now : ℕ) (l : Ledger)
    → load_from_file crypto now (le_bytes 8 0) l ≡ some (clear l)
unfolding load_from_file load_events
load_empty crypto now l = rw (read_scalar_end 8 0 (omega arith))

-- After a file with no events is loaded into a ledger whose latest hash is not the zero hash, whatever
-- the node records is refused: the zero hash is returned and the ledger stays empty.
record_event_stale :
    (crypto : Crypto) (now later : ℕ) (type : EventType) (payload : Bytes) (l q : Ledger)
    → l.latest_hash ≢ zero_hash
    → load_from_file crypto now (le_bytes 8 0) l ≡ some q
    → ((record_event crypto later type payload q).0.events ≡ [])
      × ((record_event crypto later type payload q).1 ≡ zero_hash)
unfolding clear create_event
record_event_stale crypto now later type payload l q stale h =
    let same : clear l ≡ q = some_inj (sym (load_empty crypto now l) ∙ h) in
    let refused = record_event_refused crypto later type payload (clear l) refl stale in
    subst
      (λ p.
        ((record_event crypto later type payload p).0.events ≡ [])
        × ((record_event crypto later type payload p).1 ≡ zero_hash))
      same (ap (λ r. r.0.events) refused, ap (λ r. r.1) refused)
