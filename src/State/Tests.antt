-- ===== src/State/Tests.antt =====
-- The theorems on the derived state at concrete inputs.
use cashew.Prelude.{
  ◌+◌, ◌-◌, ◌%◌, ◌^◌, ◌≡◌, ◌≢◌, ◌⊎◌, refl, true, false, Bytes, bytes_ordered, nat_ordered, none,
  some, [], ◌∷◌, length, replicate, arith,
}
use cashew.Prelude.Map.{find, put, find_or}
use cashew.Prelude.Set.{insert}
use cashew.Crypto.{ascii}
use cashew.Crypto.Sample.{toy, alice, bob}
use cashew.Codec.{le_bytes, le_value, read_blob, read_scalar}
use cashew.Keys.KeyType
use cashew.Ledger.EventType
use cashew.Ledger.EventType.{kind}
use cashew.Ledger.Event.{LedgerEvent}
use cashew.Ledger.Payload.{
  KeyIssuanceData, key_to_bytes, key_from_bytes, membership_to_bytes, membership_from_bytes,
  thing_to_bytes, thing_from_bytes,
}
use cashew.Ledger.RoundTrip.{key_from_bytes-key_to_bytes}
use cashew.Ledger.Store.{init, zero_hash, append}
use cashew.State.Records.{NetworkState, ThingState, new_network, has_member}
use cashew.State.Manager.{StateManager, apply_event, apply_events, blank, rebuild_state}
use cashew.State.Manager.Queries.{get_node_key_balance, is_node_active}
use cashew.State.Manager.Things.{replication_counted}
use cashew.State.Manager.Networks.{members_have_roles, is_some}
use cashew.State.Manager.Keys.{balances_follow}
use cashew.State.Manager.Sync.{
  Replica, InSync, merge, rebuild_state-append, merge-InSync, merge_out_of_step,
}

abbrev event : EventType.EventType → Bytes → LedgerEvent
event type payload = record {
  event_id = replicate 32 7;
  event_type = type;
  source_node = alice;
  timestamp = 9000;
  epoch = 15;
  previous_hash = zero_hash;
  payload = payload;
  signature = replicate 64 0;
}

abbrev hosting : LedgerEvent
hosting = event EventType.thing_replicated (
    thing_to_bytes
      (record { content_hash = bob; network_id = bob; hosting_node = alice; size_bytes = 10 }))

abbrev hosted : ThingState
hosted = record {
  content_hash = some bob;
  created_at = 9000;
  is_available = true;
  hosts = alice ∷ [];
  networks = bob ∷ [];
  total_size_bytes = 10;
  replication_count = 1;
}

hosting_found : find bob (apply_events (hosting ∷ []) blank).things ≡ some hosted
unfolding apply_events apply_event kind thing_from_bytes thing_to_bytes le_bytes le_value read_blob
    read_scalar find put find_or insert
hosting_found = refl

replication_counted_example :
    (1 ≡ length (alice ∷ []) % 2 ^ 32) × ((true ≡ false) ⊎ (alice ∷ [] ≢ []))
replication_counted_example = replication_counted (hosting ∷ []) bob hosted hosting_found

abbrev enrolling : LedgerEvent
enrolling =
    event EventType.network_member_added
      (membership_to_bytes (record { network_id = bob; member_node = alice; role = ascii "FULL" }))

abbrev enrolled : NetworkState
enrolled = record new_network { members = alice ∷ []; member_roles = (alice, ascii "FULL") ∷ [] }

enrolling_found : find bob (apply_events (enrolling ∷ []) blank).networks ≡ some enrolled
unfolding apply_events apply_event kind membership_from_bytes membership_to_bytes le_bytes le_value
    read_blob read_scalar find put find_or insert
enrolling_found = refl

members_have_roles_example :
    has_member alice enrolled ≡ is_some (find alice ((alice, ascii "FULL") ∷ []))
members_have_roles_example = members_have_roles (enrolling ∷ []) bob alice enrolled enrolling_found

abbrev two_keys : KeyIssuanceData
two_keys = record { key_type = KeyType.service; count = 2; method = 1; proof = zero_hash }

two_keys_read : key_from_bytes (key_to_bytes two_keys) ≡ some two_keys
two_keys_read = key_from_bytes-key_to_bytes two_keys (record {
  type_byte = omega arith;
  count_fits = omega arith;
  method_byte = omega arith;
  proof_size = refl;
})

abbrev issuing : LedgerEvent
issuing = event EventType.key_issued (key_to_bytes two_keys)

abbrev revoking : LedgerEvent
revoking = event EventType.key_revoked (key_to_bytes two_keys)

abbrev joining : LedgerEvent
joining = event EventType.node_joined alice

abbrev active : StateManager
active = apply_events (joining ∷ issuing ∷ []) blank

rebuild_state-append_example :
    rebuild_state 50 (append toy joining (init bob)) active
    ≡ apply_event joining (rebuild_state 50 (init bob) blank)
rebuild_state-append_example = rebuild_state-append toy 50 joining (init bob) blank active

-- a replica with one event
abbrev replica : Replica
replica = record {
  ledger = append toy joining (init alice);
  state = rebuild_state 50 (append toy joining (init alice)) blank;
}

replica-InSync : InSync replica
unfolding rebuild_state append init apply_events apply_event kind put
replica-InSync = (50, refl)

replica_events : replica.ledger.events ≢ []
unfolding append init
replica_events h = cc

merge-InSync_example : InSync (merge toy 9000 (issuing ∷ revoking ∷ []) (replica, true)).0
merge-InSync_example =
    merge-InSync toy 9000 (issuing ∷ revoking ∷ []) replica true replica_events replica-InSync

abbrev newcomer : Replica
newcomer = record { ledger = init bob; state = blank }

never_seen : find (replicate 32 7) newcomer.ledger.event_lookup ≡ none
unfolding find init
never_seen = refl

nothing_yet : newcomer.ledger.events ≡ []
unfolding init
nothing_yet = refl

merge_out_of_step_example :
    ((merge toy 1000 (joining ∷ []) (newcomer, true)).1 ≡ true)
    × ((merge toy 1000 (joining ∷ []) (newcomer, true)).0.ledger.events ≡ [])
    × (is_node_active alice (merge toy 1000 (joining ∷ []) (newcomer, true)).0.state ≡ true)
merge_out_of_step_example =
    merge_out_of_step toy 1000 joining newcomer nothing_yet refl refl never_seen (omega arith)

balances_follow_example :
    (get_node_key_balance alice KeyType.service (apply_event issuing active)
      ≡ (get_node_key_balance alice KeyType.service active + 2) % 2 ^ 32)
    × (get_node_key_balance alice KeyType.service (apply_event revoking active)
        ≡ get_node_key_balance alice KeyType.service active - 2)
balances_follow_example =
    balances_follow issuing revoking two_keys alice KeyType.service active refl refl two_keys_read
      two_keys_read
