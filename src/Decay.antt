-- ===== src/Decay.antt =====
-- DecayScheduler of src/core/decay/decay.hpp and decay.cpp: when keys and things decay. The state
-- manager that it refers to is an argument, and so is the clock. An id that a record of the state leaves
-- uninitialised is read as `blank`. apply_key_decay only logs.
pub mod Policy
pub mod Epoch
pub mod Owned
mod Tests
use cashew.Prelude.{
  ℕ, ◌+◌, ◌*◌, ◌/◌, ◌%◌, ◌^◌, Bool, true, false, not, ◌&&◌, Bytes, bytes_eq, bytes_ordered,
  nat_ordered, Option, none, some, List, [], ◌∷◌, ◌++◌, map, length, select, ltb, leb, ◌==◌,
  if◌then◌else◌,
}
use cashew.Prelude.Map.{Map, find, find_or, put, erase}
use cashew.Keys.KeyType
use cashew.Keys.KeyType.{KeyType}
use cashew.Keys.Key.{sub_64}
use cashew.Decay.Policy.{
  DecayReason, inactivity, expiration, resource_shortage, poor_performance, KeyDecayEvent,
  ThingDecayEvent, DecayPolicy, day, new_policy, ThingDecayPolicy, new_thing_policy, NodeActivity,
  new_activity, is_inactive, has_used_key_type, ThingActivity, new_thing_activity,
  thing_is_inactive, meets_redundancy,
}
use cashew.State.Records.{NodeState, ThingState}
use cashew.State.Manager.{StateManager}
use cashew.State.Manager.Queries.{
  get_all_active_nodes, get_all_available_things, get_thing_state, is_node_active,
}

pub record DecayScheduler : Type 0 where
  pub key_policies : Map KeyType DecayPolicy
  pub thing_policy : ThingDecayPolicy
  pub node_activities : Map Bytes NodeActivity
  pub thing_activities : Map Bytes ThingActivity
  pub key_decay_by_epoch : Map ℕ (List KeyDecayEvent)
  pub thing_decay_history : List ThingDecayEvent

pub set_key_policy : KeyType → DecayPolicy → DecayScheduler → DecayScheduler
set_key_policy type policy d = record d { key_policies = put type policy d.key_policies }

pub get_key_policy : KeyType → DecayScheduler → DecayPolicy
get_key_policy type d = find_or new_policy type d.key_policies

unfoldable set_thing_policy : ThingDecayPolicy → DecayScheduler → DecayScheduler
set_thing_policy policy d = record d { thing_policy = policy }

-- initialize_default_policies
abbrev active_policy : KeyType → DecayPolicy
active_policy type = record new_policy {
  key_type = some type;
  requires_activity = true;
  min_actions_per_epoch = 1;
}

unfoldable pub init : DecayScheduler
unfolding set_key_policy
init =
    let empty : DecayScheduler = record {
      key_policies = [];
      thing_policy = new_thing_policy;
      node_activities = [];
      thing_activities = [];
      key_decay_by_epoch = [];
      thing_decay_history = [];
    } in
    set_key_policy KeyType.network
      (record new_policy { key_type = some KeyType.network; inactivity_threshold = 14 * day })
      (set_key_policy KeyType.routing
        (record (active_policy KeyType.routing) {
          min_actions_per_epoch = 10;
          requires_performance = true;
          min_success_rate = 0x3F333333;
        })
        (set_key_policy KeyType.service (active_policy KeyType.service) (
          set_key_policy KeyType.node (active_policy KeyType.node) (
            set_key_policy KeyType.identity
              (record new_policy { key_type = some KeyType.identity; max_age_seconds = 0 })
              empty))))

unfoldable record_node_activity : ℕ → Bytes → DecayScheduler → DecayScheduler
record_node_activity now node d =
    let a = find_or (new_activity node) node d.node_activities in
    record d {
      node_activities = put node (record a { node_id = node; last_seen = now }) d.node_activities;
    }

-- a uint32_t counter
abbrev next_32 : ℕ → ℕ
next_32 n = (n + 1) % 2 ^ 32

unfoldable record_key_use : ℕ → Bytes → KeyType → DecayScheduler → DecayScheduler
record_key_use now node type d =
    let a = find_or (new_activity node) node d.node_activities in
    record d {
      node_activities =
          put node
            (record a {
              node_id = node;
              last_key_use = now;
              last_use_by_type = put type now a.last_use_by_type;
              actions_this_epoch =
                  put type (next_32 (find_or 0 type a.actions_this_epoch)) a.actions_this_epoch;
            })
            d.node_activities;
    }

pub update_node_activity_from_state : ℕ → StateManager → Bytes → DecayScheduler → DecayScheduler
update_node_activity_from_state now s node d =
    let a = find_or (new_activity node) node d.node_activities in
    record d {
      node_activities =
          put node
            (record a {
              node_id = node;
              last_seen = if is_node_active node s then now else a.last_seen;
            })
            d.node_activities;
    }

-- the activity of a thing, brought up to date with its state
abbrev refreshed : ThingActivity → Option ThingState → ThingActivity
refreshed a none = a
refreshed a (some t) =
    let a' = record a { current_hosts = t.hosts } in
    if a.created_at == 0
    then record a' { created_at = t.created_at; last_accessed = t.created_at }
    else a'

pub update_thing_activity_from_state : StateManager → Bytes → DecayScheduler → DecayScheduler
update_thing_activity_from_state s content d =
    let a = find_or (new_thing_activity content) content d.thing_activities in
    record d {
      thing_activities =
          put content (refreshed (record a { content_hash = content }) (get_thing_state content s))
            d.thing_activities;
    }

unfoldable record_thing_access : ℕ → StateManager → Bytes → DecayScheduler → DecayScheduler
unfolding update_thing_activity_from_state
record_thing_access now s content d =
    let a = find_or (new_thing_activity content) content d.thing_activities in
    update_thing_activity_from_state s content (record d {
      thing_activities =
          put content
            (record a {
              content_hash = content;
              last_accessed = now;
              access_count = next_32 a.access_count;
            })
            d.thing_activities;
    })

-- the checks of the activity of a node that is tracked
abbrev activity_decays : ℕ → KeyType → DecayPolicy → NodeActivity → Option DecayReason
activity_decays now type policy a =
    if is_inactive now policy.inactivity_threshold a
    then some inactivity
    else if not policy.requires_activity
    then none
    else if not (has_used_key_type now type policy.inactivity_threshold a)
    then some inactivity
    else elim (find type a.actions_this_epoch) [
      | none ↦ some poor_performance
      | some actions ↦
          if ltb actions policy.min_actions_per_epoch then some poor_performance else none
    ]

pub should_decay_key : ℕ → Bytes → KeyType → DecayPolicy → DecayScheduler → Option DecayReason
unfolding is_inactive has_used_key_type
should_decay_key now node type policy d =
    if policy.max_age_seconds == 0 then none else elim (find node d.node_activities) [
      | none ↦ if policy.requires_activity then some inactivity else none
      | some a ↦ activity_decays now type policy a
    ]

-- the checks of a thing; its host_count is the size of its hosts
pub should_decay_thing :
    ℕ → StateManager → Bytes → ThingDecayPolicy → DecayScheduler → Option DecayReason
unfolding thing_is_inactive meets_redundancy
should_decay_thing now s content policy d = elim (find content d.thing_activities) [
  | none ↦ elim (get_thing_state content s) [
    | none ↦ none
    | some t ↦
        if ltb (length t.hosts) policy.min_hosts_required then some resource_shortage else none
  ]
  | some a ↦
      if thing_is_inactive now policy.inactivity_threshold a
      then some inactivity
      else if not (meets_redundancy policy.min_hosts_required a)
      then some resource_shortage
      else if ltb policy.max_age_seconds (sub_64 now a.created_at) && (a.access_count == 0)
      then some expiration
      else none
]
