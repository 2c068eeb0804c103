-- ===== src/Decay/Policy.antt =====
-- Policies, activities and events of src/core/decay/decay.hpp, and their methods in decay.cpp.
use cashew.Prelude.{
  ℕ, ◌*◌, Bool, false, Bytes, nat_ordered, Option, none, some, List, [], length, ltb, leb,
}
use cashew.Prelude.Map.{Map, find}
use cashew.Keys.KeyType.{KeyType}
use cashew.Keys.Key.{sub_64}

pub data DecayReason : Type 0 where
  inactivity : DecayReason
  expiration : DecayReason
  resource_shortage : DecayReason
  poor_performance : DecayReason
  violation : DecayReason

pub record KeyDecayEvent : Type 0 where
  pub node_id : Bytes
  pub key_type : KeyType
  pub keys_decayed : ℕ
  pub reason : DecayReason
  pub decayed_at : ℕ
  pub epoch : ℕ

pub record ThingDecayEvent : Type 0 where
  pub content_hash : Bytes
  pub hosts_removed : List Bytes
  pub reason : DecayReason
  pub decayed_at : ℕ

-- min_success_rate, which nothing reads, is the pattern of a float
pub record DecayPolicy : Type 0 where
  pub key_type : Option KeyType
  pub max_age_seconds : ℕ
  pub inactivity_threshold : ℕ
  pub requires_activity : Bool
  pub min_actions_per_epoch : ℕ
  pub requires_performance : Bool
  pub min_success_rate : ℕ

abbrev pub day : ℕ
day = 24 * 60 * 60

-- the default constructor
abbrev pub new_policy : DecayPolicy
new_policy = record {
  key_type = none;
  max_age_seconds = 30 * day;
  inactivity_threshold = 7 * day;
  requires_activity = false;
  min_actions_per_epoch = 0;
  requires_performance = false;
  min_success_rate = 0x3F000000;
}

pub record ThingDecayPolicy : Type 0 where
  pub max_age_seconds : ℕ
  pub min_hosts_required : ℕ
  pub inactivity_threshold : ℕ

abbrev pub new_thing_policy : ThingDecayPolicy
new_thing_policy = record {
  max_age_seconds = 90 * day;
  min_hosts_required = 2;
  inactivity_threshold = 30 * day;
}

pub record NodeActivity : Type 0 where
  pub node_id : Bytes
  pub last_seen : ℕ
  pub last_key_use : ℕ
  pub last_use_by_type : Map KeyType ℕ
  pub actions_this_epoch : Map KeyType ℕ

-- what `node_activities_[node_id]` makes, with its id set
abbrev pub new_activity : Bytes → NodeActivity
new_activity node = record {
  node_id = node;
  last_seen = 0;
  last_key_use = 0;
  last_use_by_type = [];
  actions_this_epoch = [];
}

unfoldable pub is_inactive : ℕ → ℕ → NodeActivity → Bool
is_inactive now threshold a = ltb threshold (sub_64 now a.last_seen)

unfoldable pub has_used_key_type : ℕ → KeyType → ℕ → NodeActivity → Bool
has_used_key_type now type threshold a = elim (find type a.last_use_by_type) [
  | none ↦ false
  | some used ↦ leb (sub_64 now used) threshold
]

pub record ThingActivity : Type 0 where
  pub content_hash : Bytes
  pub created_at : ℕ
  pub last_accessed : ℕ
  pub access_count : ℕ
  pub current_hosts : List Bytes

abbrev pub new_thing_activity : Bytes → ThingActivity
new_thing_activity content = record {
  content_hash = content;
  created_at = 0;
  last_accessed = 0;
  access_count = 0;
  current_hosts = [];
}

unfoldable pub thing_is_inactive : ℕ → ℕ → ThingActivity → Bool
thing_is_inactive now threshold a = ltb threshold (sub_64 now a.last_accessed)

unfoldable pub meets_redundancy : ℕ → ThingActivity → Bool
meets_redundancy min_hosts a = leb min_hosts (length a.current_hosts)
