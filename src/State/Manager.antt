-- ===== src/State/Manager.antt =====
-- StateManager of src/core/ledger/state.hpp: the handlers of state.cpp. The queries and the upkeep
-- are in the modules below.
pub mod Queries
pub mod Things
pub mod Networks
pub mod Keys
pub mod Sync
use cashew.Prelude.{
  ℕ, zero, suc, ◌+◌, ◌-◌, ◌%◌, ◌^◌, Bool, true, false, Bytes, bytes_ordered, nat_ordered, Option,
  none, some, List, [], ◌∷◌, length, take, ltb, leb, ◌==◌, if◌then◌else◌,
}
use cashew.Prelude.Map.{Map, find, put, erase, find_or}
use cashew.Prelude.Set.{insert, remove}
use cashew.Keys.KeyType.{KeyType}
use cashew.Ledger.EventType.{
  Kind, kind, joined, left, issued, revoked, created, added, removed, replicated, dropped,
  reputation, pow, postake, other,
}
use cashew.Ledger.Event.{LedgerEvent}
use cashew.Ledger.Payload.{
  key_from_bytes, membership_from_bytes, thing_from_bytes, reputation_from_bytes, KeyIssuanceData,
  NetworkMembershipData, ThingReplicationData, ReputationUpdateData,
}
use cashew.Ledger.Store.{Ledger}
use cashew.State.Records.{NodeState, NetworkState, ThingState, new_node, new_network, new_thing}

pub record StateManager : Type 0 where
  pub nodes : Map Bytes NodeState
  pub networks : Map Bytes NetworkState
  pub things : Map Bytes ThingState
  pub last_rebuild : ℕ

-- nodes_[id], then a write to the reference
update_node : Bytes → (NodeState → NodeState) → StateManager → StateManager
update_node id f s = record s { nodes = put id (f (find_or new_node id s.nodes)) s.nodes }

-- nodes_.find(id), then a write through the iterator
alter_node : Bytes → (NodeState → NodeState) → StateManager → StateManager
alter_node id f s = elim (find id s.nodes) [
  | none ↦ s
  | some n ↦ record s { nodes = put id (f n) s.nodes }
]

apply_node_joined : LedgerEvent → StateManager → StateManager
apply_node_joined e s = record s {
  nodes =
      put e.source_node
        (record new_node {
          node_id = some e.source_node;
          joined_at = e.timestamp;
          is_active = true;
        })
        s.nodes;
}

apply_node_left : LedgerEvent → StateManager → StateManager
unfolding alter_node
apply_node_left e s = alter_node e.source_node (λ n. record n { is_active = false }) s

-- key_balances[type] += count, on a uint32_t
credit : KeyIssuanceData → NodeState → NodeState
credit d n = record n {
  key_balances =
      put d.key_type ((find_or 0 d.key_type n.key_balances + d.count) % 2 ^ 32) n.key_balances;
}

-- the balance, less the count where it is larger
debit : KeyIssuanceData → NodeState → NodeState
debit d n = record n {
  key_balances =
      put d.key_type
        (if ltb d.count (find_or 0 d.key_type n.key_balances)
          then find_or 0 d.key_type n.key_balances - d.count
          else 0)
        n.key_balances;
}

apply_key_issued : LedgerEvent → StateManager → StateManager
unfolding update_node credit
apply_key_issued e s = elim (key_from_bytes e.payload) [
  | none ↦ s
  | some d ↦ update_node e.source_node (credit d) s
]

apply_key_revoked : LedgerEvent → StateManager → StateManager
unfolding update_node debit
apply_key_revoked e s = elim (key_from_bytes e.payload) [
  | none ↦ s
  | some d ↦ update_node e.source_node (debit d) s
]

apply_network_created : LedgerEvent → StateManager → StateManager
apply_network_created e s = if ltb (length e.payload) 32 then s else record s {
  networks =
      put (take 32 e.payload)
        (record new_network {
          network_id = some (take 32 e.payload);
          created_at = e.timestamp;
          is_active = true;
        })
        s.networks;
}

enroll : NetworkMembershipData → NetworkState → NetworkState
enroll d w = record w {
  members = insert d.member_node w.members;
  member_roles = put d.member_node d.role w.member_roles;
}

expel : NetworkMembershipData → NetworkState → NetworkState
expel d w = record w {
  members = remove d.member_node w.members;
  member_roles = erase d.member_node w.member_roles;
}

add_member : NetworkMembershipData → StateManager → StateManager
unfolding update_node enroll
add_member d s =
    update_node d.member_node (λ n. record n { networks = insert d.network_id n.networks })
      (record s {
        networks =
            put d.network_id (enroll d (find_or new_network d.network_id s.networks)) s.networks;
      })

apply_network_member_added : LedgerEvent → StateManager → StateManager
unfolding add_member
apply_network_member_added e s = elim (membership_from_bytes e.payload) [
  | none ↦ s
  | some d ↦ add_member d s
]

alter_network : Bytes → (NetworkState → NetworkState) → StateManager → StateManager
alter_network id f s = elim (find id s.networks) [
  | none ↦ s
  | some w ↦ record s { networks = put id (f w) s.networks }
]

remove_member : NetworkMembershipData → StateManager → StateManager
unfolding alter_node alter_network expel
remove_member d s =
    alter_node d.member_node (λ n. record n { networks = remove d.network_id n.networks })
      (alter_network d.network_id (expel d) s)

apply_network_member_removed : LedgerEvent → StateManager → StateManager
unfolding remove_member
apply_network_member_removed e s = elim (membership_from_bytes e.payload) [
  | none ↦ s
  | some d ↦ remove_member d s
]

-- the writes to the thing; replication_count is a uint32_t
host_thing : ℕ → ThingReplicationData → ThingState → ThingState
host_thing timestamp d t = record t {
  content_hash = some d.content_hash;
  created_at = timestamp;
  is_available = true;
  hosts = insert d.hosting_node t.hosts;
  networks = insert d.network_id t.networks;
  total_size_bytes = d.size_bytes;
  replication_count = length (insert d.hosting_node t.hosts) % 2 ^ 32;
}

add_host : ℕ → ThingReplicationData → StateManager → StateManager
unfolding update_node host_thing
add_host timestamp d s =
    update_node d.hosting_node
      (λ n. record n { hosted_things = insert d.content_hash n.hosted_things })
      (record s {
        things =
            put d.content_hash (host_thing timestamp d (find_or new_thing d.content_hash s.things))
              s.things;
      })

apply_thing_replicated : LedgerEvent → StateManager → StateManager
unfolding add_host
apply_thing_replicated e s = elim (thing_from_bytes e.payload) [
  | none ↦ s
  | some d ↦ add_host e.timestamp d s
]

unhost_thing : ThingReplicationData → ThingState → ThingState
unhost_thing d t =
    let hosts' = remove d.hosting_node t.hosts in
    let count = length hosts' % 2 ^ 32 in
    record t {
      hosts = hosts';
      replication_count = count;
      is_available = if count == 0 then false else t.is_available;
    }

remove_host : ThingReplicationData → StateManager → StateManager
unfolding alter_node unhost_thing
remove_host d s = elim (find d.content_hash s.things) [
  | none ↦ s
  | some t ↦
      alter_node d.hosting_node
        (λ n. record n { hosted_things = remove d.content_hash n.hosted_things })
        (record s { things = put d.content_hash (unhost_thing d t) s.things })
]

apply_thing_removed : LedgerEvent → StateManager → StateManager
unfolding remove_host
apply_thing_removed e s = elim (thing_from_bytes e.payload) [ none ↦ s | some d ↦ remove_host d s ]

-- the sum of two int32_t, in two's complement
apply_reputation_updated : LedgerEvent → StateManager → StateManager
unfolding update_node
apply_reputation_updated e s = elim (reputation_from_bytes e.payload) [
  | none ↦ s
  | some d ↦
      update_node d.subject_node
        (λ n. record n { reputation_score = (n.reputation_score + d.score_delta) % 2 ^ 32 }) s
]

apply_pow_solution : LedgerEvent → StateManager → StateManager
unfolding update_node
apply_pow_solution e s =
    update_node e.source_node (λ n. record n { pow_solutions = (n.pow_solutions + 1) % 2 ^ 32 }) s

apply_postake_contribution : LedgerEvent → StateManager → StateManager
unfolding update_node
apply_postake_contribution e s =
    update_node e.source_node
      (λ n. record n { postake_contributions = (n.postake_contributions + 1) % 2 ^ 32 }) s

-- the switch of apply_event
apply_kind : Kind → LedgerEvent → StateManager → StateManager
apply_kind joined e s = apply_node_joined e s
apply_kind left e s = apply_node_left e s
apply_kind issued e s = apply_key_issued e s
apply_kind revoked e s = apply_key_revoked e s
apply_kind created e s = apply_network_created e s
apply_kind added e s = apply_network_member_added e s
apply_kind removed e s = apply_network_member_removed e s
apply_kind replicated e s = apply_thing_replicated e s
apply_kind dropped e s = apply_thing_removed e s
apply_kind reputation e s = apply_reputation_updated e s
apply_kind pow e s = apply_pow_solution e s
apply_kind postake e s = apply_postake_contribution e s
apply_kind other e s = s

unfoldable pub apply_event : LedgerEvent → StateManager → StateManager
unfolding apply_kind kind apply_node_joined apply_node_left apply_key_issued apply_key_revoked
    apply_network_created apply_network_member_added apply_network_member_removed
    apply_thing_replicated apply_thing_removed apply_reputation_updated apply_pow_solution
    apply_postake_contribution
apply_event e s = apply_kind (kind e.event_type) e s

unfoldable pub apply_events : List LedgerEvent → StateManager → StateManager
apply_events [] s = s
apply_events (e ∷ es) s = apply_events es (apply_event e s)

-- the state before the first event
abbrev pub blank : StateManager
blank = record { nodes = []; networks = []; things = []; last_rebuild = 0 }

unfoldable pub rebuild_state : ℕ → Ledger → StateManager → StateManager
unfolding apply_events
rebuild_state now l s =
    let s' = apply_events l.events (record blank { last_rebuild = s.last_rebuild }) in
    record s' { last_rebuild = now }
