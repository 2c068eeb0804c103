-- ===== src/Ledger/Queries.antt =====
-- What the ledger's queries return.
use cashew.Prelude.{
  ℕ, ◌≡◌, refl, sym, ap, ◌∙◌, Bool, ◌&&◌, Bytes, bytes_eq, bytes_eq_iff, bytes_ordered, some, List,
  [], ◌∷◌, ◌++◌, length, map, select, All, All-of_elem, get_elem?, get_elem?-append,
  get_elem?-append_left, get_elem?_bound, arith, Bool-cases, Option-cases, inl, inr, if◌then◌else◌,
  append_assoc, append-nil,
}
use cashew.Prelude.Map.{find, find_or, find-put, find_or-put}
use cashew.Crypto.{Crypto}
use cashew.Ledger.EventType.{Kind, kind, joined, issued, added, replicated}
use cashew.Ledger.Event.{LedgerEvent}
use cashew.Ledger.Index
use cashew.Ledger.Index.{LedgerIndex, rebuild_from_events, add_events, index_kind, note_event}
use cashew.Ledger.Store.{
  Ledger, verify_event, append, add_event, get_event, resolve, get_events_by_node, zero_hash,
}
use cashew.Ledger.Chain.{IsStore}

module _ (crypto : Crypto) (e : LedgerEvent) (l : Ledger) (v : IsStore crypto l) where
  get_event-append :
      (id : Bytes)
      → get_event id (append crypto e l)
        ≡ (if bytes_eq e.event_id id then some e else get_event id l)
  unfolding get_event append
  get_event-append id = elim (Bool-cases (bytes_eq e.event_id id)) [
    | inl same ↦
        rw (find-put e.event_id id (length l.events) l.event_lookup, same, get_event)
          (get_elem?-append l.events e [])
    | inr other ↦ elim (Option-cases (find id l.event_lookup)) [
      | inl missing ↦
          ground (arith, find-put e.event_id id (length l.events) l.event_lookup, other, missing)
      | inr (i, at) ↦
          let (x, here, _) = v.placed id i at in
          ground (
            arith,
            find-put e.event_id id (length l.events) l.event_lookup,
            other,
            at,
            get_elem?-append_left l.events (e ∷ []) i (get_elem?_bound l.events i here),
          )
    ]
  ]

-- In a ledger whose lookup table agrees with its events, get_event finds an event that add_event
-- accepted under its id, and under every other id what it found before; a refused event changes no
-- answer of get_event. The event's id is returned, or the zero hash where it was refused.
pub get_event-add_event :
    (crypto : Crypto) (now : ℕ) (e : LedgerEvent) (l : Ledger) (id : Bytes)
    → IsStore crypto l
    → (get_event id (add_event crypto now e l).0 ≡ (
        if verify_event crypto now e l && bytes_eq e.event_id id then some e else get_event id l))
      × ((add_event crypto now e l).1
          ≡ (if verify_event crypto now e l then e.event_id else zero_hash))
unfolding add_event
get_event-add_event crypto now e l id v =
    ground (arith, Bool-cases (verify_event crypto now e l), get_event-append crypto e l v id)

by_node-index_kind :
    (k : Kind) (e : LedgerEvent) (x : LedgerIndex)
    → (index_kind k e x).events_by_node ≡ x.events_by_node
unfolding index_kind
by_node-index_kind joined e x = refl
by_node-index_kind issued e x = ground arith
by_node-index_kind added e x = ground arith
by_node-index_kind replicated e x = ground arith
by_node-index_kind _ e x = refl

by_node-add_event :
    (node : Bytes) (e : LedgerEvent) (x : LedgerIndex)
    → find_or [] node (Index.add_event e x).events_by_node ≡ (
        if bytes_eq e.source_node node
        then find_or [] node x.events_by_node ++ e.event_id ∷ []
        else find_or [] node x.events_by_node)
unfolding Index.add_event
by_node-add_event node e x =
    ap (find_or [] node) (by_node-index_kind (kind e.event_type) e (note_event e x))
    ∙ ground (
      arith,
      find_or-put [] e.source_node node
          (find_or [] e.source_node x.events_by_node ++ e.event_id ∷ []) x.events_by_node,
      bytes_eq_iff e.source_node node,
    )

-- The index lists a node's events in the order of the ledger.
by_node-add_events :
    (node : Bytes) (es : List LedgerEvent) (x : LedgerIndex)
    → find_or [] node (add_events es x).events_by_node
      ≡ find_or [] node x.events_by_node
        ++ map (λ e. e.event_id) (select (λ e. bytes_eq e.source_node node) es)
unfolding add_events
by_node-add_events node [] x = sym (append-nil (find_or [] node x.events_by_node))
by_node-add_events node (e ∷ es) x =
    by_node-add_events node es (Index.add_event e x)
    ∙ rw (by_node-add_event node e x) (elim (Bool-cases (bytes_eq e.source_node node)) [
      | inl own ↦ simp (own, append_assoc)
      | inr other ↦ simp other
    ])

-- Ids of known events resolve to those events.
resolve_known :
    (l : Ledger) (p : LedgerEvent → Bool) (es : List LedgerEvent)
    → All (λ e. get_event e.event_id l ≡ some e) es
    → resolve l (map (λ e. e.event_id) (select p es)) ≡ select p es
unfolding resolve
resolve_known l p [] h = refl
resolve_known l p (e ∷ es) (known, h) = elim (Bool-cases (p e)) [
  | inl kept ↦ rw kept (ground (arith, known, resolve_known l p es h))
  | inr dropped ↦ rw (dropped, resolve_known l p es h)
]

get_event_known :
    (crypto : Crypto) (l : Ledger) (i : ℕ) (e : LedgerEvent)
    → IsStore crypto l
    → get_elem? l.events i ≡ some e
    → get_event e.event_id l ≡ some e
unfolding get_event
get_event_known crypto l i e v at = rw (v.found i e at, get_event) at

nothing_before :
    (node : Bytes) (ids : List Bytes) → find_or [] node Index.empty.events_by_node ++ ids ≡ ids
unfolding find_or find
nothing_before node ids = refl

-- In a ledger whose lookup table and index agree with its events, the events of a node, looked up
-- through the index and the lookup table, are exactly the events with that source, in order.
pub get_events_by_node_exact :
    (crypto : Crypto) (l : Ledger) (node : Bytes)
    → IsStore crypto l
    → get_events_by_node node l ≡ select (λ e. bytes_eq e.source_node node) l.events
unfolding get_events_by_node Index.get_events_by_node rebuild_from_events
get_events_by_node_exact crypto l node v =
    ap (resolve l) (
      ap (λ x. find_or [] node x.events_by_node) v.indexed
      ∙ by_node-add_events node l.events Index.empty
      ∙ nothing_before node
          (map (λ e. e.event_id) (select (λ e. bytes_eq e.source_node node) l.events)))
    ∙ resolve_known l (λ e. bytes_eq e.source_node node) l.events
        (All-of_elem _ l.events (λ i e at. known i e at))
  where
    known :
        (i : ℕ) (e : LedgerEvent) → get_elem? l.events i ≡ some e → get_event e.event_id l ≡ some e
    known i e at = get_event_known crypto l i e v at
