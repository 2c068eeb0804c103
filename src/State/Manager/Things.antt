-- ===== src/State/Manager/Things.antt =====
-- Things: how many hosts they have, and who hosts them.
use mathlib.Core.Path.{subst}
use cashew.Prelude.{
  ℕ, ◌%◌, ◌^◌, ◌≡◌, ◌≢◌, refl, ap, true, false, Bytes, bytes_eq, bytes_ordered, some, List, [], ◌∷◌,
  length, arith, Bool-cases, Option-cases, inl, inr, ◌⊎◌,
}
use cashew.Prelude.Map.{find, put, find_or, find-put}
use cashew.Prelude.Set.{insert, remove}
use cashew.Ledger.EventType.{Kind, kind, joined, replicated, dropped, pow, postake, other}
use cashew.Ledger.Event.{LedgerEvent}
use cashew.Ledger.Payload.{ThingReplicationData, thing_from_bytes}
use cashew.State.Records.{NodeState, ThingState, new_thing}
use cashew.State.Manager.{
  StateManager, update_node, alter_node, host_thing, unhost_thing, add_host, remove_host,
  apply_kind, apply_event, apply_events, blank, apply_node_left, apply_key_issued,
  apply_key_revoked, apply_network_created, apply_network_member_added,
  apply_network_member_removed, add_member, remove_member, alter_network, apply_thing_replicated,
  apply_thing_removed, apply_reputation_updated, apply_pow_solution, apply_postake_contribution,
  apply_node_joined,
}

-- A thing's replication count is its number of hosts (as a uint32_t), and an available thing has a
-- host.
pub record IsThing (t : ThingState) : Type 0 where
  pub counted : t.replication_count ≡ length t.hosts % 2 ^ 32
  pub hosted : t.is_available ≡ true → t.hosts ≢ []

insert-nonempty : (a : Bytes) (xs : List Bytes) → insert a xs ≢ []
unfolding insert
insert-nonempty a [] h = cc
insert-nonempty a (x ∷ xs) h = ground arith

host_thing-IsThing :
    (timestamp : ℕ) (d : ThingReplicationData) (t : ThingState) → IsThing (host_thing timestamp d t)
unfolding host_thing
host_thing-IsThing timestamp d t = record {
  counted = refl;
  hosted = λ h. insert-nonempty d.hosting_node t.hosts;
}

unhost_thing-IsThing : (d : ThingReplicationData) (t : ThingState) → IsThing (unhost_thing d t)
unfolding unhost_thing
unhost_thing-IsThing d t = record {
  counted = refl;
  hosted = λ h none_left. ground (arith, h, ap (length {A = Bytes}) none_left);
}

abbrev AllThings : StateManager → Type 0
AllThings s = (content : Bytes) (t : ThingState) → find content s.things ≡ some t → IsThing t

-- Handlers that write no thing.
things-alter_node :
    (id : Bytes) (f : NodeState → NodeState) (s : StateManager)
    → (alter_node id f s).things ≡ s.things
unfolding alter_node
things-alter_node id f s = ground arith

abbrev IsThingKind : Kind → Type 0
IsThingKind replicated = Unit {0}
IsThingKind dropped = Unit {0}
IsThingKind _ = ⊥

things-apply_kind :
    (k : Kind) (e : LedgerEvent) (s : StateManager)
    → ¬ IsThingKind k
    → (apply_kind k e s).things ≡ s.things
unfolding apply_kind apply_node_joined apply_node_left apply_key_issued apply_key_revoked
    apply_network_created apply_network_member_added apply_network_member_removed add_member
    remove_member alter_network alter_node update_node apply_reputation_updated apply_pow_solution
    apply_postake_contribution
things-apply_kind replicated e s h = absurd (h tt)
things-apply_kind dropped e s h = absurd (h tt)
things-apply_kind joined e s h = refl
things-apply_kind other e s h = refl
things-apply_kind pow e s h = refl
things-apply_kind postake e s h = refl
things-apply_kind _ e s h = ground arith

put-AllThings :
    (s s' : StateManager) (content : Bytes) (t : ThingState)
    → s'.things ≡ put content t s.things
    → IsThing t
    → AllThings s
    → AllThings s'
put-AllThings s s' content t e new v c x h = elim (Bool-cases (bytes_eq content c)) [
  | inl same ↦
      let hit : t ≡ x = ground (arith, find-put content c t s.things, e, h, same) in
      subst IsThing hit new
  | inr other_one ↦ v c x (ground (arith, find-put content c t s.things, e, h, other_one))
]

same-AllThings : (s s' : StateManager) → s'.things ≡ s.things → AllThings s → AllThings s'
same-AllThings s s' e v c t h = v c t (rw e at h)

remove_host-AllThings :
    (d : ThingReplicationData) (s : StateManager) → AllThings s → AllThings (remove_host d s)
unfolding remove_host
remove_host-AllThings d s v = elim (Option-cases (find d.content_hash s.things)) [
  | inl missing ↦ rw (missing, remove_host) v
  | inr (t, here) ↦
      rw (here, remove_host)
        (put-AllThings s
          (alter_node d.hosting_node
            (λ n. record n { hosted_things = remove d.content_hash n.hosted_things })
            (record s { things = put d.content_hash (unhost_thing d t) s.things }))
          d.content_hash (unhost_thing d t) (things-alter_node d.hosting_node _ _)
          (unhost_thing-IsThing d t) v)
]

blank-AllThings : AllThings blank
unfolding find
blank-AllThings c t h = absurd (ground (arith, h))

-- Nothing but the thing is written for a replication, and nothing at all for an unreadable payload.
replicated-AllThings :
    (e : LedgerEvent) (s : StateManager) → AllThings s → AllThings (apply_thing_replicated e s)
unfolding apply_thing_replicated
replicated-AllThings e s v = elim (Option-cases (thing_from_bytes e.payload)) [
  | inl bad ↦ rw (bad, apply_thing_replicated) v
  | inr (d, good) ↦
      rw (good, apply_thing_replicated)
        (unfold add_host in
          put-AllThings s (add_host e.timestamp d s) d.content_hash
            (host_thing e.timestamp d (find_or new_thing d.content_hash s.things)) refl
            (host_thing-IsThing e.timestamp d (find_or new_thing d.content_hash s.things)) v)
]

removed-AllThings :
    (e : LedgerEvent) (s : StateManager) → AllThings s → AllThings (apply_thing_removed e s)
unfolding apply_thing_removed
removed-AllThings e s v = elim (Option-cases (thing_from_bytes e.payload)) [
  | inl bad ↦ rw (bad, apply_thing_removed) v
  | inr (d, good) ↦ rw (good, apply_thing_removed) (remove_host-AllThings d s v)
]

apply_kind-AllThings :
    (k : Kind) (e : LedgerEvent) (s : StateManager) → AllThings s → AllThings (apply_kind k e s)
unfolding apply_kind
apply_kind-AllThings replicated e s v = replicated-AllThings e s v
apply_kind-AllThings dropped e s v = removed-AllThings e s v
apply_kind-AllThings joined e s v =
    same-AllThings s (apply_kind joined e s) (things-apply_kind joined e s (λ h. h)) v
apply_kind-AllThings k e s v =
    same-AllThings s (apply_kind k e s) (things-apply_kind k e s (λ h. h)) v

apply_events-AllThings :
    (es : List LedgerEvent) (s : StateManager) → AllThings s → AllThings (apply_events es s)
unfolding apply_events apply_event
apply_events-AllThings [] s v = v
apply_events-AllThings (e ∷ es) s v =
    apply_events-AllThings es (apply_event e s) (apply_kind-AllThings (kind e.event_type) e s v)

-- Whatever events a node applies, every thing's replication count is its number of hosts (as a
-- uint32_t), and every available thing has a host.
pub replication_counted :
    (es : List LedgerEvent) (content : Bytes) (t : ThingState)
    → find content (apply_events es blank).things ≡ some t
    → (t.replication_count ≡ length t.hosts % 2 ^ 32) × ((t.is_available ≡ false) ⊎ (t.hosts ≢ []))
replication_counted es content t h =
    let v = apply_events-AllThings es blank blank-AllThings content t h in
    (v.counted, elim (Bool-cases t.is_available) [ inl on ↦ inr (v.hosted on) | inr off ↦ inl off ])
