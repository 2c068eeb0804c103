-- ===== src/State/Manager/Queries.antt =====
-- The queries and the upkeep of StateManager (state.cpp). The clock is an argument.
use cashew.Prelude.{
  ℕ, ◌-◌, ◌*◌, Bool, false, not, ◌&&◌, ◌||◌, Bytes, bytes_ordered, nat_ordered, Option, none, some,
  List, [], ◌∷◌, map, select, ltb, if◌then◌else◌,
}
use cashew.Prelude.Map.{Map, find, erase, find_or}
use cashew.Keys.KeyType.{KeyType}
use cashew.Keys.Key.{sub_64}
use cashew.Ledger.Event.{LedgerEvent}
use cashew.Ledger.Store.{Ledger, get_events_by_node}
use cashew.State.Records.{
  NodeState, NetworkState, ThingState, has_key_type, can_host_things, can_join_networks, can_route,
  has_member,
}
use cashew.State.Manager.{StateManager}

unfoldable get_node_state : Bytes → StateManager → Option NodeState
get_node_state node s = find node s.nodes

-- it != end && p(it->second)
abbrev holds {ℓ} : {A : Type ℓ} → (A → Bool) → Option A → Bool
holds p none = false
holds p (some a) = p a

unfoldable pub get_all_active_nodes : StateManager → List NodeState
get_all_active_nodes s = select (λ n. n.is_active) (map (λ e. e.1) s.nodes)

unfoldable get_nodes_with_key_type : KeyType → ℕ → StateManager → List Bytes
get_nodes_with_key_type type min_count s =
    map (λ e. e.0) (select (λ e. (e.1).is_active && has_key_type type min_count e.1) s.nodes)

unfoldable pub is_node_active : Bytes → StateManager → Bool
is_node_active node s = holds (λ n. n.is_active) (find node s.nodes)

unfoldable pub get_node_key_balance : Bytes → KeyType → StateManager → ℕ
get_node_key_balance node type s = elim (find node s.nodes) [
  | none ↦ 0
  | some n ↦ find_or 0 type n.key_balances
]

unfoldable pub get_node_reputation : Bytes → StateManager → ℕ
get_node_reputation node s = elim (find node s.nodes) [ none ↦ 0 | some n ↦ n.reputation_score ]

unfoldable get_network_state : Bytes → StateManager → Option NetworkState
get_network_state network s = find network s.networks

unfoldable get_all_active_networks : StateManager → List NetworkState
get_all_active_networks s = select (λ w. w.is_active) (map (λ e. e.1) s.networks)

unfoldable pub get_networks_for_node : Bytes → StateManager → List Bytes
get_networks_for_node node s = elim (find node s.nodes) [ none ↦ [] | some n ↦ n.networks ]

unfoldable get_networks_hosting_thing : Bytes → StateManager → List Bytes
get_networks_hosting_thing content s = elim (find content s.things) [
  | none ↦ []
  | some t ↦ t.networks
]

unfoldable is_network_active : Bytes → StateManager → Bool
is_network_active network s = holds (λ w. w.is_active) (find network s.networks)

unfoldable is_node_in_network : Bytes → Bytes → StateManager → Bool
unfolding has_member
is_node_in_network node network s = holds (has_member node) (find network s.networks)

pub get_thing_state : Bytes → StateManager → Option ThingState
get_thing_state content s = find content s.things

pub get_all_available_things : StateManager → List ThingState
get_all_available_things s = select (λ t. t.is_available) (map (λ e. e.1) s.things)

unfoldable get_thing_hosts : Bytes → StateManager → List Bytes
get_thing_hosts content s = elim (find content s.things) [ none ↦ [] | some t ↦ t.hosts ]

unfoldable is_thing_available : Bytes → StateManager → Bool
is_thing_available content s = holds (λ t. t.is_available) (find content s.things)

unfoldable get_thing_replication_count : Bytes → StateManager → ℕ
get_thing_replication_count content s = elim (find content s.things) [
  | none ↦ 0
  | some t ↦ t.replication_count
]

unfoldable can_node_host_things : Bytes → StateManager → Bool
unfolding can_host_things
can_node_host_things node s = holds can_host_things (find node s.nodes)

unfoldable can_node_join_networks : Bytes → StateManager → Bool
unfolding can_join_networks
can_node_join_networks node s = holds can_join_networks (find node s.nodes)

unfoldable can_node_route_traffic : Bytes → StateManager → Bool
unfolding can_route
can_node_route_traffic node s = holds can_route (find node s.nodes)

-- the loop of can_node_post_content
unfoldable pub any_key : Map KeyType ℕ → Bool
any_key [] = false
any_key ((type, count) ∷ rest) = ltb 0 count || any_key rest

unfoldable pub can_node_post_content : Bytes → StateManager → Bool
unfolding any_key
can_node_post_content node s = elim (find node s.nodes) [
  | none ↦ false
  | some n ↦ if not n.is_active then false else any_key n.key_balances
]

-- the latest of a time and the times of events
last_activity : ℕ → List LedgerEvent → ℕ
last_activity t [] = t
last_activity t (e ∷ es) = last_activity (if ltb t e.timestamp then e.timestamp else t) es

-- INACTIVITY_THRESHOLD_SECONDS, 14 days
abbrev inactivity_threshold : ℕ
inactivity_threshold = 14 * 24 * 60 * 60

refresh_node : ℕ → List LedgerEvent → NodeState → NodeState
unfolding last_activity
refresh_node now events n =
    let last = last_activity n.joined_at events in
    if not n.is_active
    then n
    else if ltb last now && ltb inactivity_threshold (now - last)
    then record n { is_active = false }
    else n

refresh_nodes : ℕ → Ledger → Map Bytes NodeState → Map Bytes NodeState
unfolding refresh_node
refresh_nodes now l [] = []
refresh_nodes now l ((id, n) ∷ rest) =
    (id, refresh_node now (get_events_by_node id l) n) ∷ refresh_nodes now l rest

unfoldable update_node_activity : ℕ → Ledger → StateManager → StateManager
unfolding refresh_nodes
update_node_activity now l s = record s { nodes = refresh_nodes now l s.nodes }

-- INACTIVE_THRESHOLD, 30 days
abbrev inactive_threshold : ℕ
inactive_threshold = 86400 * 30

is_stale : ℕ → NodeState → Bool
is_stale now n = not n.is_active && ltb inactive_threshold (sub_64 now n.joined_at)

erase_all : List Bytes → Map Bytes NodeState → Map Bytes NodeState
erase_all [] nodes = nodes
erase_all (id ∷ ids) nodes = erase_all ids (erase id nodes)

unfoldable cleanup_stale_state : ℕ → StateManager → StateManager
unfolding is_stale erase_all
cleanup_stale_state now s =
    let to_remove = map (λ e. e.0) (select (λ e. is_stale now e.1) s.nodes) in
    record s { nodes = erase_all to_remove s.nodes }
