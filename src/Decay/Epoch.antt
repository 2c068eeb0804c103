-- ===== src/Decay/Epoch.antt =====
-- The checks of an epoch, what they record, and the queries of what was recorded.
use cashew.Prelude.{
  ℕ, ◌+◌, ◌/◌, ◌%◌, ◌^◌, Bytes, bytes_eq, bytes_ordered, nat_ordered, none, some, List, [], ◌∷◌,
  ◌++◌, length, select, ltb, ◌==◌, if◌then◌else◌,
}
use cashew.Prelude.Map.{Map, find, put}
use cashew.Keys.KeyType.{KeyType}
use cashew.Keys.Key.{sub_64}
use cashew.State.Records.{NodeState, ThingState}
use cashew.State.Manager.{StateManager}
use cashew.State.Manager.Queries.{get_all_active_nodes, get_all_available_things}
use cashew.Decay.Policy.{KeyDecayEvent, ThingDecayEvent, NodeActivity}
use cashew.Decay.{
  DecayScheduler, get_key_policy, should_decay_key, should_decay_thing,
  update_node_activity_from_state, update_thing_activity_from_state,
}

-- the inner loop of check_key_decay, over the balances of a node
unfoldable pub key_events : ℕ → ℕ → Bytes → DecayScheduler → Map KeyType ℕ → List KeyDecayEvent
unfolding should_decay_key get_key_policy
key_events now epoch node d [] = []
key_events now epoch node d ((type, count) ∷ balances) =
    let later = key_events now epoch node d balances in
    if count == 0 then later else elim (should_decay_key now node type (get_key_policy type d) d) [
      | none ↦ later
      | some reason ↦
          record {
            node_id = node;
            key_type = type;
            keys_decayed = 1;
            reason = reason;
            decayed_at = now;
            epoch = epoch;
          }
          ∷ later
    ]

abbrev pub id_of : Bytes → NodeState → Bytes
id_of blank n = elim n.node_id [ none ↦ blank | some id ↦ id ]

-- a node that is not tracked is noted from the state
unfoldable pub tracked : ℕ → StateManager → Bytes → DecayScheduler → DecayScheduler
unfolding update_node_activity_from_state
tracked now s node d = elim (find node d.node_activities) [
  | none ↦ update_node_activity_from_state now s node d
  | some a ↦ d
]

-- the outer loop
unfoldable pub scan_nodes :
    ℕ
    → ℕ
    → Bytes
    → StateManager
    → List NodeState
    → DecayScheduler
    → DecayScheduler × List KeyDecayEvent
unfolding key_events tracked
scan_nodes now epoch blank s [] d = (d, [])
scan_nodes now epoch blank s (n ∷ nodes) d =
    let node = id_of blank n in
    let d' = tracked now s node d in
    let (d'', later) = scan_nodes now epoch blank s nodes d' in
    (d'', key_events now epoch node d' n.key_balances ++ later)

unfoldable pub check_key_decay :
    ℕ → ℕ → Bytes → StateManager → DecayScheduler → DecayScheduler × List KeyDecayEvent
unfolding scan_nodes
check_key_decay now epoch blank s d =
    let (d', decays) = scan_nodes now epoch blank s (get_all_active_nodes s) d in
    (
      if length decays == 0
          then d'
          else record d' { key_decay_by_epoch = put epoch decays d'.key_decay_by_epoch },
      decays,
    )

-- a thing that is not tracked is noted from the state
unfoldable tracked_thing : StateManager → Bytes → DecayScheduler → DecayScheduler
tracked_thing s content d = elim (find content d.thing_activities) [
  | none ↦ update_thing_activity_from_state s content d
  | some a ↦ d
]

-- the loop of check_thing_decay
scan_things :
    ℕ
    → Bytes
    → StateManager
    → List ThingState
    → DecayScheduler
    → DecayScheduler × List ThingDecayEvent
scan_things now blank s [] d = (d, [])
scan_things now blank s (t ∷ things) d =
    let content : Bytes = elim t.content_hash [ none ↦ blank | some id ↦ id ] in
    let d' = tracked_thing s content d in
    let (d'', later) = scan_things now blank s things d' in
    elim (should_decay_thing now s content d'.thing_policy d') [
      | none ↦ (d'', later)
      | some reason ↦ (
        d'',
        record {
          content_hash = content;
          hosts_removed = t.hosts;
          reason = reason;
          decayed_at = now;
        }
            ∷ later,
      )
    ]

check_thing_decay :
    ℕ → Bytes → StateManager → DecayScheduler → DecayScheduler × List ThingDecayEvent
unfolding scan_things
check_thing_decay now blank s d = scan_things now blank s (get_all_available_things s) d

-- the loop that clears the counts of the epoch
clear_actions : Map Bytes NodeActivity → Map Bytes NodeActivity
clear_actions [] = []
clear_actions ((node, a) ∷ m) = (node, record a { actions_this_epoch = [] }) ∷ clear_actions m

-- apply_thing_decay appends its event to the history
process_epoch : ℕ → ℕ → Bytes → StateManager → DecayScheduler → DecayScheduler
unfolding check_key_decay check_thing_decay clear_actions
process_epoch now epoch blank s d =
    let (d₁, keys) = check_key_decay now epoch blank s d in
    let (d₂, things) = check_thing_decay now blank s d₁ in
    record d₂ {
      thing_decay_history = d₂.thing_decay_history ++ things;
      node_activities = clear_actions d₂.node_activities;
    }

-- epochs of ten minutes
unfoldable force_decay_check : ℕ → Bytes → StateManager → DecayScheduler → DecayScheduler
unfolding process_epoch
force_decay_check now blank s d = process_epoch now (now / 600) blank s d

-- the two loops of cleanup_inactive_nodes, in one
keep_seen : ℕ → ℕ → Map Bytes NodeActivity → Map Bytes NodeActivity
keep_seen now threshold [] = []
keep_seen now threshold ((node, a) ∷ m) =
    let rest = keep_seen now threshold m in
    if ltb threshold (sub_64 now a.last_seen) then rest else (node, a) ∷ rest

unfoldable cleanup_inactive_nodes : ℕ → ℕ → DecayScheduler → DecayScheduler
unfolding keep_seen
cleanup_inactive_nodes now threshold d = record d {
  node_activities = keep_seen now threshold d.node_activities;
}

events_of : Map ℕ (List KeyDecayEvent) → List KeyDecayEvent
events_of [] = []
events_of ((epoch, events) ∷ m) = events ++ events_of m

unfoldable get_key_decay_history : Bytes → DecayScheduler → List KeyDecayEvent
unfolding events_of
get_key_decay_history node d =
    select (λ (e : KeyDecayEvent). bytes_eq e.node_id node) (events_of d.key_decay_by_epoch)

-- the sum, a uint32_t
total_keys : List KeyDecayEvent → ℕ
total_keys [] = 0
total_keys (e ∷ events) = (e.keys_decayed + total_keys events) % 2 ^ 32

unfoldable get_total_keys_decayed : ℕ → DecayScheduler → ℕ
unfolding total_keys
get_total_keys_decayed epoch d = elim (find epoch d.key_decay_by_epoch) [
  | none ↦ 0
  | some events ↦ total_keys events
]

unfoldable get_total_things_decayed : DecayScheduler → ℕ
get_total_things_decayed d = length d.thing_decay_history % 2 ^ 32
