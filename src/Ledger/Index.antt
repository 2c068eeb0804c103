-- ===== src/Ledger/Index.antt =====
-- LedgerIndex of src/core/ledger/ledger.hpp, and its methods in ledger.cpp.
use cashew.Prelude.{
  ℕ, ◌+◌, ◌%◌, ◌^◌, Bool, true, ◌&&◌, ◌||◌, Bytes, bytes_eq, bytes_eq_iff, bytes_lt, bytes_ordered,
  nat_ordered, Option, none, some, List, [], ◌∷◌, ◌++◌, ◌==◌, ltb, ◌≡◌, ◌↔◌, arith, ==_iff,
}
use cashew.Prelude.Ordered.{Ordered}
use cashew.Prelude.Map.{Map, find, put, find_or}
use cashew.Prelude.Set.{insert}
use cashew.Keys.KeyType.{KeyType}
use cashew.Ledger.EventType.{EventType, Kind, kind, joined, issued, added, replicated}
use cashew.Ledger.Event.{LedgerEvent}
use cashew.Ledger.Payload.{key_from_bytes, membership_from_bytes, thing_from_bytes}

-- std::pair<NodeID, KeyType>
abbrev pub Holder : Type 0
Holder = Bytes × KeyType

abbrev pub holder_eq : Holder → Holder → Bool
holder_eq (a, s) (b, t) = bytes_eq a b && s == t

abbrev pub holder_lt : Holder → Holder → Bool
holder_lt (a, s) (b, t) = bytes_lt a b || (bytes_eq a b && ltb s t)

pub holder_eq_iff : (x y : Holder) → (holder_eq x y ≡ true) ↔ (x ≡ y)
holder_eq_iff (a, s) (b, t) = ground (arith, bytes_eq_iff a b, ==_iff s t)

instance abbrev pub holder_ordered : Ordered Holder
holder_ordered = record { beq = holder_eq; lt = holder_lt; beq_iff = holder_eq_iff }

pub record LedgerIndex : Type 0 where
  pub events_by_node : Map Bytes (List Bytes)
  pub events_by_type : Map EventType (List Bytes)
  pub events_by_network : Map Bytes (List Bytes)
  pub events_by_thing : Map Bytes (List Bytes)
  pub node_join_times : Map Bytes ℕ
  pub network_members : Map Bytes (List Bytes)
  pub thing_hosts : Map Bytes (List Bytes)
  pub key_balances : Map Holder ℕ

-- the default constructor, and clear
abbrev pub empty : LedgerIndex
empty = record {
  events_by_node = [];
  events_by_type = [];
  events_by_network = [];
  events_by_thing = [];
  node_join_times = [];
  network_members = [];
  thing_hosts = [];
  key_balances = [];
}

-- map[k].push_back(v)
push_at {ℓ} : {K : Type ℓ} ⦃o : Ordered K⦄ → K → Bytes → Map K (List Bytes) → Map K (List Bytes)
push_at k v m = put k (find_or [] k m ++ v ∷ []) m

-- map[k].insert(v)
insert_at : Bytes → Bytes → Map Bytes (List Bytes) → Map Bytes (List Bytes)
insert_at k v m = put k (insert v (find_or [] k m)) m

index_joined : LedgerEvent → LedgerIndex → LedgerIndex
index_joined e x = record x { node_join_times = put e.source_node e.timestamp x.node_join_times }

index_issued : LedgerEvent → LedgerIndex → LedgerIndex
index_issued e x = elim (key_from_bytes e.payload) [
  | none ↦ x
  | some d ↦
      let h : Holder = (e.source_node, d.key_type) in
      record x {
        key_balances = put h ((find_or 0 h x.key_balances + d.count) % 2 ^ 32) x.key_balances;
      }
]

index_added : LedgerEvent → LedgerIndex → LedgerIndex
unfolding push_at insert_at
index_added e x = elim (membership_from_bytes e.payload) [
  | none ↦ x
  | some d ↦ record x {
    events_by_network = push_at d.network_id e.event_id x.events_by_network;
    network_members = insert_at d.network_id d.member_node x.network_members;
  }
]

index_replicated : LedgerEvent → LedgerIndex → LedgerIndex
unfolding push_at insert_at
index_replicated e x = elim (thing_from_bytes e.payload) [
  | none ↦ x
  | some d ↦ record x {
    events_by_thing = push_at d.content_hash e.event_id x.events_by_thing;
    thing_hosts = insert_at d.content_hash d.hosting_node x.thing_hosts;
  }
]

-- the switch of add_event
unfoldable pub index_kind : Kind → LedgerEvent → LedgerIndex → LedgerIndex
unfolding index_joined index_issued index_added index_replicated
index_kind joined e x = index_joined e x
index_kind issued e x = index_issued e x
index_kind added e x = index_added e x
index_kind replicated e x = index_replicated e x
index_kind _ e x = x

-- the entries that every event gets
pub note_event : LedgerEvent → LedgerIndex → LedgerIndex
unfolding push_at
note_event e x = record x {
  events_by_node = push_at e.source_node e.event_id x.events_by_node;
  events_by_type = push_at e.event_type e.event_id x.events_by_type;
}

unfoldable pub add_event : LedgerEvent → LedgerIndex → LedgerIndex
unfolding index_kind kind note_event
add_event e x = index_kind (kind e.event_type) e (note_event e x)

unfoldable pub add_events : List LedgerEvent → LedgerIndex → LedgerIndex
add_events [] x = x
add_events (e ∷ es) x = add_events es (add_event e x)

-- clear, then the loop
unfoldable pub rebuild_from_events : List LedgerEvent → LedgerIndex
unfolding add_events
rebuild_from_events es = add_events es empty

unfoldable pub get_events_by_node : Bytes → LedgerIndex → List Bytes
get_events_by_node node x = find_or [] node x.events_by_node

unfoldable get_node_join_time : Bytes → LedgerIndex → Option ℕ
get_node_join_time node x = find node x.node_join_times

unfoldable get_total_keys_issued : Bytes → KeyType → LedgerIndex → ℕ
get_total_keys_issued node type x = find_or {K = Holder} 0 (node, type) x.key_balances

unfoldable get_network_events : Bytes → LedgerIndex → List Bytes
get_network_events network x = find_or [] network x.events_by_network

unfoldable get_network_members : Bytes → LedgerIndex → List Bytes
get_network_members network x = find_or [] network x.network_members

unfoldable get_thing_events : Bytes → LedgerIndex → List Bytes
get_thing_events content x = find_or [] content x.events_by_thing

unfoldable get_thing_hosts : Bytes → LedgerIndex → List Bytes
get_thing_hosts content x = find_or [] content x.thing_hosts

-- get_reputation_events: as in the source, every event of the node
unfoldable get_reputation_events : Bytes → LedgerIndex → List Bytes
unfolding get_events_by_node
get_reputation_events node x = get_events_by_node node x

-- get_key_events_by_node: as in the source, never any event
unfoldable get_key_events_by_node : Bytes → LedgerIndex → List Bytes
get_key_events_by_node node x = []
