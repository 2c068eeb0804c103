-- ===== src/State/Records.antt =====
-- NodeState, NetworkState and ThingState of src/core/ledger/state.hpp, and their methods in
-- state.cpp. An id that a default constructor leaves uninitialised is `none`; reputation_score is an
-- int32_t, held as its 32-bit pattern.
use cashew.Prelude.{
  ℕ, Bool, false, ◌&&◌, Bytes, bytes_ordered, nat_ordered, Option, none, some, List, [], leb,
}
use cashew.Prelude.Map.{Map, find}
use cashew.Prelude.Set.{contains}
use cashew.Crypto.{ascii}
use cashew.Keys.KeyType
use cashew.Keys.KeyType.{KeyType}

pub record NodeState : Type 0 where
  pub node_id : Option Bytes
  pub joined_at : ℕ
  pub is_active : Bool
  pub key_balances : Map KeyType ℕ
  pub networks : List Bytes
  pub hosted_things : List Bytes
  pub reputation_score : ℕ
  pub uptime_seconds : ℕ
  pub bandwidth_contributed : ℕ
  pub pow_solutions : ℕ
  pub postake_contributions : ℕ

pub record NetworkState : Type 0 where
  pub network_id : Option Bytes
  pub created_at : ℕ
  pub is_active : Bool
  pub members : List Bytes
  pub member_roles : Map Bytes Bytes
  pub hosted_thing : Option Bytes

pub record ThingState : Type 0 where
  pub content_hash : Option Bytes
  pub created_at : ℕ
  pub is_available : Bool
  pub hosts : List Bytes
  pub networks : List Bytes
  pub total_size_bytes : ℕ
  pub replication_count : ℕ

-- the default constructors
abbrev pub new_node : NodeState
new_node = record {
  node_id = none;
  joined_at = 0;
  is_active = false;
  key_balances = [];
  networks = [];
  hosted_things = [];
  reputation_score = 0;
  uptime_seconds = 0;
  bandwidth_contributed = 0;
  pow_solutions = 0;
  postake_contributions = 0;
}

abbrev pub new_network : NetworkState
new_network = record {
  network_id = none;
  created_at = 0;
  is_active = false;
  members = [];
  member_roles = [];
  hosted_thing = none;
}

abbrev pub new_thing : ThingState
new_thing = record {
  content_hash = none;
  created_at = 0;
  is_available = false;
  hosts = [];
  networks = [];
  total_size_bytes = 0;
  replication_count = 0;
}

pub has_key_type : KeyType → ℕ → NodeState → Bool
has_key_type type min_count n = elim (find type n.key_balances) [
  | none ↦ false
  | some count ↦ leb min_count count
]

unfoldable pub can_host_things : NodeState → Bool
unfolding has_key_type
can_host_things n = n.is_active && has_key_type KeyType.service 1 n

unfoldable pub can_join_networks : NodeState → Bool
unfolding has_key_type
can_join_networks n = n.is_active && has_key_type KeyType.network 1 n

unfoldable pub can_route : NodeState → Bool
unfolding has_key_type
can_route n = n.is_active && has_key_type KeyType.routing 1 n

unfoldable pub has_member : Bytes → NetworkState → Bool
has_member node w = contains node w.members

unfoldable get_member_role : Bytes → NetworkState → Bytes
get_member_role node w = elim (find node w.member_roles) [
  | none ↦ ascii "UNKNOWN"
  | some role ↦ role
]

unfoldable is_hosted_by : Bytes → ThingState → Bool
is_hosted_by node t = contains node t.hosts

unfoldable meets_redundancy_requirements : ℕ → ThingState → Bool
meets_redundancy_requirements min_redundancy t = leb min_redundancy t.replication_count
