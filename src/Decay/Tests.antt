-- ===== src/Decay/Tests.antt =====
-- The theorem on decay at a concrete input.
use cashew.Prelude.{◌≡◌, refl, true, nat_ordered, some, [], ◌∷◌, All, length}
use cashew.Prelude.Map.{find, find_or, put}
use cashew.Crypto.Sample.{alice}
use cashew.Keys.KeyType
use cashew.State.Records.{new_node}
use cashew.State.Manager.{StateManager}
use cashew.State.Manager.Queries.{get_all_active_nodes, is_node_active}
use cashew.Decay.{
  init, set_key_policy, get_key_policy, should_decay_key, update_node_activity_from_state,
}
use cashew.Decay.Epoch.{key_events, tracked, scan_nodes, check_key_decay}
use cashew.Decay.Policy.{is_inactive, has_used_key_type}
use cashew.Decay.Owned.{Owned, check_key_decay-Owned}

-- alice is active, with one identity key and two service keys
abbrev state : StateManager
state = record {
  nodes =
      (
        alice,
        record new_node {
          node_id = some alice;
          is_active = true;
          key_balances = (KeyType.identity, 1) ∷ (KeyType.service, 2) ∷ [];
        },
      )
      ∷ [];
  networks = [];
  things = [];
  last_rebuild = 0;
}

-- a service key of hers decays
one_decays : length ((check_key_decay 100 1 [] state init).1) ≡ 1
unfolding check_key_decay scan_nodes key_events tracked update_node_activity_from_state
    should_decay_key get_key_policy set_key_policy init is_inactive has_used_key_type is_node_active
    get_all_active_nodes find find_or put
one_decays = refl

check_key_decay-Owned_example :
    All (Owned [] (get_all_active_nodes state) init) ((check_key_decay 100 1 [] state init).1)
check_key_decay-Owned_example = check_key_decay-Owned 100 1 [] state init
