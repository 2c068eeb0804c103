-- ===== src/State/Manager/Sync.antt =====
-- The state follows the ledger: the loop over missing events of apply_merge_both in
-- src/network/state_reconciliation.cpp, and rebuild_state.
use cashew.Prelude.{
  ℕ, ◌+◌, ◌%◌, ◌^◌, ◌<◌, ◌≡◌, ◌≢◌, refl, sym, ap, ◌∙◌, Bool, true, false, bytes_ordered, none, List,
  [], ◌∷◌, ◌++◌, arith, Bool-cases, inl, inr, if◌then◌else◌,
}
use cashew.Prelude.Map.{find}
use cashew.Crypto.{Crypto}
use cashew.Ledger.EventType.{Kind, kind, joined, pow, postake, other, node_joined}
use cashew.Ledger.Event.{LedgerEvent}
use cashew.Ledger.Store.{
  Ledger, zero_hash, append, add_external_event, verify_event, max_future_skew,
}
use cashew.Ledger.Sync.{add_external_event-verified, add_external_event_lost}
use cashew.State.Manager.{
  StateManager, update_node, alter_node, alter_network, add_member, remove_member, add_host,
  remove_host, apply_kind, apply_event, apply_events, blank, rebuild_state, apply_node_joined,
  apply_node_left, apply_key_issued, apply_key_revoked, apply_network_created,
  apply_network_member_added, apply_network_member_removed, apply_thing_replicated,
  apply_thing_removed, apply_reputation_updated, apply_pow_solution, apply_postake_contribution,
}
use cashew.State.Manager.Keys.{rejoin_resets}
use cashew.State.Manager.Queries.{is_node_active}

-- a node's ledger and the state that it derives from it
pub record Replica : Type 0 where
  pub ledger : Ledger
  pub state : StateManager

-- one round of the loop; the flag is `all_applied`
merge_event : Crypto → ℕ → LedgerEvent → Replica × Bool → Replica × Bool
merge_event crypto now e (r, all_applied) =
    let (ledger', ok) = add_external_event crypto now e r.ledger in
    if ok
    then (record { ledger = ledger'; state = apply_event e r.state }, all_applied)
    else (record { ledger = ledger'; state = r.state }, false)

-- the loop of apply_merge_both, over the events that the peer has and the node lacks
pub merge : Crypto → ℕ → List LedgerEvent → Replica × Bool → Replica × Bool
unfolding merge_event
merge crypto now [] r = r
merge crypto now (e ∷ es) r = merge crypto now es (merge_event crypto now e r)

-- The state is what the handlers make of the ledger's events.
abbrev pub InSync : Replica → Type 0
InSync r = (t : ℕ) × (r.state ≡ apply_events r.ledger.events (record blank { last_rebuild = t }))

apply_events-push :
    (es : List LedgerEvent) (e : LedgerEvent) (s : StateManager)
    → apply_events (es ++ e ∷ []) s ≡ apply_event e (apply_events es s)
unfolding apply_events
apply_events-push [] e s = refl
apply_events-push (x ∷ es) e s = apply_events-push es e (apply_event x s)

-- No handler reads or writes last_rebuild_.
apply_kind-rebuilt :
    (k : Kind) (e : LedgerEvent) (s : StateManager) (t : ℕ)
    → apply_kind k e (record s { last_rebuild = t })
      ≡ record (apply_kind k e s) { last_rebuild = t }
unfolding apply_kind apply_node_joined apply_node_left apply_key_issued apply_key_revoked
    apply_network_created apply_network_member_added apply_network_member_removed add_member
    remove_member alter_network apply_thing_replicated apply_thing_removed add_host remove_host
    alter_node update_node apply_reputation_updated apply_pow_solution apply_postake_contribution
apply_kind-rebuilt joined e s t = refl
apply_kind-rebuilt other e s t = refl
apply_kind-rebuilt pow e s t = refl
apply_kind-rebuilt postake e s t = refl
apply_kind-rebuilt _ e s t = ground arith

apply_events-rebuilt :
    (es : List LedgerEvent) (s : StateManager) (t : ℕ)
    → apply_events es (record s { last_rebuild = t })
      ≡ record (apply_events es s) { last_rebuild = t }
unfolding apply_events apply_event
apply_events-rebuilt [] s t = refl
apply_events-rebuilt (e ∷ es) s t =
    ap (apply_events es) (apply_kind-rebuilt (kind e.event_type) e s t)
    ∙ apply_events-rebuilt es (apply_event e s) t

rebuild_state_lem :
    (now : ℕ) (l : Ledger) (s : StateManager)
    → rebuild_state now l s ≡ apply_events l.events (record blank { last_rebuild = now })
unfolding rebuild_state
rebuild_state_lem now l s =
    sym (apply_events-rebuilt l.events (record blank { last_rebuild = s.last_rebuild }) now)

-- Whatever state it starts from, rebuilding from a ledger with one more event gives what applying
-- that event to the state rebuilt from the shorter ledger gives.
pub rebuild_state-append :
    (crypto : Crypto) (now : ℕ) (e : LedgerEvent) (l : Ledger) (s s' : StateManager)
    → rebuild_state now (append crypto e l) s' ≡ apply_event e (rebuild_state now l s)
unfolding append
rebuild_state-append crypto now e l s s' =
    rebuild_state_lem now (append crypto e l) s'
    ∙ apply_events-push l.events e (record blank { last_rebuild = now })
    ∙ ap (apply_event e) (sym (rebuild_state_lem now l s))

merge_event-appends :
    (crypto : Crypto) (now : ℕ) (e : LedgerEvent) (r : Replica) (all_applied : Bool)
    → r.ledger.events ≢ []
    → merge_event crypto now e (r, all_applied) ≡ (
        if verify_event crypto now e r.ledger
        then (
          record { ledger = append crypto e r.ledger; state = apply_event e r.state },
          all_applied,
        )
        else (r, false))
unfolding merge_event
merge_event-appends crypto now e r all_applied some_events =
    rw (add_external_event-verified crypto now e r.ledger some_events) (ground arith)

append-nonempty : (es : List LedgerEvent) (e : LedgerEvent) → es ++ e ∷ [] ≢ []
append-nonempty [] e h = cc
append-nonempty (x ∷ es) e h = cc

-- The invariant of the loop: a ledger with an event, and a state in step with it.
abbrev InStep : Replica → Type 0
InStep r = (r.ledger.events ≢ []) × InSync r

merge_event-InStep :
    (crypto : Crypto) (now : ℕ) (e : LedgerEvent) (r : Replica) (all_applied : Bool)
    → InStep r
    → InStep (merge_event crypto now e (r, all_applied)).0
merge_event-InStep crypto now e r all_applied (some_events, (t, same)) =
    elim (Bool-cases (verify_event crypto now e r.ledger)) [
      | inl fine ↦
          rw (merge_event-appends crypto now e r all_applied some_events, fine)
            (unfold append in
              (
                append-nonempty r.ledger.events e,
                (
                  t,
                  ap (apply_event e) same
                      ∙ sym
                          (apply_events-push r.ledger.events e (record blank { last_rebuild = t })),
                ),
              ))
      | inr bad ↦
          rw (merge_event-appends crypto now e r all_applied some_events, bad)
            (some_events, (t, same))
    ]

merge-InStep :
    (crypto : Crypto) (now : ℕ) (es : List LedgerEvent) (r : Replica × Bool)
    → InStep r.0
    → InStep (merge crypto now es r).0
unfolding merge
merge-InStep crypto now [] r v = v
merge-InStep crypto now (e ∷ es) (r, all_applied) v =
    merge-InStep crypto now es (merge_event crypto now e (r, all_applied))
      (merge_event-InStep crypto now e r all_applied v)

-- Where a ledger holds an event, and the state is what the handlers make of its events from a blank
-- state with some time of rebuilding, this is still so after any events of a peer are merged.
pub merge-InSync :
    (crypto : Crypto) (now : ℕ) (es : List LedgerEvent) (r : Replica) (all_applied : Bool)
    → r.ledger.events ≢ []
    → InSync r
    → InSync (merge crypto now es (r, all_applied)).0
merge-InSync crypto now es r all_applied some_events sync =
    (merge-InStep crypto now es (r, all_applied) (some_events, sync)).1

-- Where the ledger is empty, a NODE_JOINED event with a new id that names the zero hash and lies more
-- than five minutes in the future (on the 64-bit clock) is merged with success, the ledger stays
-- empty, and the state counts the event's source as active.
pub merge_out_of_step :
    (crypto : Crypto) (now : ℕ) (e : LedgerEvent) (r : Replica)
    → r.ledger.events ≡ []
    → e.event_type ≡ node_joined
    → e.previous_hash ≡ zero_hash
    → find e.event_id r.ledger.event_lookup ≡ none
    → (now + max_future_skew) % 2 ^ 64 < e.timestamp
    → ((merge crypto now (e ∷ []) (r, true)).1 ≡ true)
      × ((merge crypto now (e ∷ []) (r, true)).0.ledger.events ≡ [])
      × (is_node_active e.source_node (merge crypto now (e ∷ []) (r, true)).0.state ≡ true)
unfolding merge merge_event
merge_out_of_step crypto now e r empty joining genesis new late =
    let lost = add_external_event_lost crypto now e r.ledger empty genesis new late in
    rw lost (refl, empty, (rejoin_resets e 1 r.state joining).3)
