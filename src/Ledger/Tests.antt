-- ===== src/Ledger/Tests.antt =====
-- The theorems on the ledger at concrete inputs.
use cashew.Prelude.{
  ◌+◌, ◌%◌, ◌^◌, leb, not, ◌<◌, ◌≡◌, ◌≢◌, refl, true, false, ◌&&◌, bytes_eq, bytes_eq_iff,
  bytes_ordered, none, some, List, [], ◌∷◌, ◌++◌, length, replicate, select, All, arith,
  if◌then◌else◌,
}
use cashew.Prelude.Map.{find, put}
use cashew.Crypto.{ascii}
use cashew.Crypto.Sample.{toy, alice, bob}
use cashew.Codec.{le_bytes, le_value, read_blob, read_scalar}
use cashew.Keys.KeyType
use cashew.Ledger.EventType
use cashew.Ledger.Event.{LedgerEvent, to_bytes, from_bytes, compute_hash}
use cashew.Ledger.Payload.{
  KeyIssuanceData, NetworkMembershipData, ReputationUpdateData, key_to_bytes, key_from_bytes,
  membership_to_bytes, membership_from_bytes, reputation_to_bytes, reputation_from_bytes,
}
use cashew.Ledger.RoundTrip.{ledger_round_trips, IsEvent}
use cashew.Ledger.Store.{
  Ledger, init, zero_hash, too_late, verify_event, append, add_event, add_external_event,
  new_event_id, create_event, record_event, set_event_callback, get_event, get_events_by_node,
  validate_chain, current_epoch, integrity_tag, tip, chain_checks, verify_event_chain, has_event,
}
use cashew.Ledger.Chain.{IsStore, IsLedger}
use cashew.Ledger.Runs.{Call, records, registers, step, run, run-init-IsLedger}
use cashew.Ledger.Queries.{get_event-add_event, get_events_by_node_exact}
use cashew.Ledger.Sync.{holds_id, add_external_event_exact}
use cashew.Ledger.File.{save_to_file, load_from_file, clear, load_events}
use cashew.Ledger.Reload.{load_from_file-save_to_file}

abbrev two_calls : List Call
two_calls =
    registers
    ∷ records 1000 EventType.node_joined alice
    ∷ records 1001 EventType.network_created bob
    ∷ []

-- a ledger of two events
abbrev small : Ledger
small = run toy two_calls (init alice)

run-init-IsLedger_example : IsLedger toy small × (validate_chain toy small ≡ true)
run-init-IsLedger_example = run-init-IsLedger toy two_calls alice

small-IsLedger : IsLedger toy small
small-IsLedger = (run-init-IsLedger toy two_calls alice).0

-- an event that the empty ledger refuses, and does not report
abbrev early_bird : LedgerEvent
early_bird = record {
  event_id = replicate 32 7;
  event_type = EventType.node_joined;
  source_node = bob;
  timestamp = 9000;
  epoch = 15;
  previous_hash = zero_hash;
  payload = [];
  signature = replicate 64 0;
}

early_bird-IsEvent : IsEvent early_bird
early_bird-IsEvent = record {
  id_size = refl;
  type_byte = omega arith;
  source_size = refl;
  timestamp_fits = omega arith;
  epoch_fits = omega arith;
  previous_size = refl;
  payload_fits = omega arith;
  signature_size = refl;
}

abbrev issuance : KeyIssuanceData
issuance = record { key_type = KeyType.service; count = 2; method = 1; proof = zero_hash }

abbrev membership : NetworkMembershipData
membership = record { network_id = bob; member_node = alice; role = ascii "FULL" }

abbrev update : ReputationUpdateData
update = record {
  subject_node = alice;
  score_delta = 5;
  reason = ascii "good";
  evidence = zero_hash;
}

get_event-add_event_example :
    (get_event (replicate 32 7) (add_event toy 9000 early_bird small).0 ≡ (
      if verify_event toy 9000 early_bird small && bytes_eq (replicate 32 7) (replicate 32 7)
      then some early_bird
      else get_event (replicate 32 7) small))
    × ((add_event toy 9000 early_bird small).1
        ≡ (if verify_event toy 9000 early_bird small then replicate 32 7 else zero_hash))
get_event-add_event_example =
    get_event-add_event toy 9000 early_bird small (replicate 32 7) small-IsLedger.store

get_events_by_node_exact_example :
    get_events_by_node alice small ≡ select (λ e. bytes_eq e.source_node alice) small.events
get_events_by_node_exact_example = get_events_by_node_exact toy small alice small-IsLedger.store

-- the two events, and one that follows them
abbrev joined : LedgerEvent
joined = (create_event toy 1000 EventType.node_joined alice (set_event_callback (init alice))).0

abbrev created : LedgerEvent
created =
    (create_event toy 1001 EventType.network_created bob
      (run toy (registers ∷ records 1000 EventType.node_joined alice ∷ []) (init alice))).0

abbrev follower : LedgerEvent
follower = record early_bird { previous_hash = compute_hash toy created; timestamp = 1002 }

small_ends : small.events ≡ (joined ∷ []) ++ created ∷ []
unfolding run step record_event create_event add_event append verify_event has_event
    verify_event_chain chain_checks too_late find init put new_event_id current_epoch
    set_event_callback tip compute_hash to_bytes le_bytes
small_ends = refl

add_external_event_exact_example : add_external_event toy 1002 follower small ≡ (
    if bytes_eq (compute_hash toy created) (compute_hash toy created)
      && (leb 1002 ((1002 + 300) % 2 ^ 64) && not (holds_id (replicate 32 7) small.events))
    then (append toy follower small, true)
    else (small, false))
add_external_event_exact_example =
    add_external_event_exact toy 1002 follower small (joined ∷ []) created small-IsLedger.store
      small_ends

never_seen : find (replicate 32 7) (init alice).event_lookup ≡ none
unfolding find init
never_seen = refl

nothing_yet : (init alice).events ≡ []
unfolding init
nothing_yet = refl

fresh_id : find (new_event_id toy 2000 small) small.event_lookup ≡ none
unfolding run step record_event create_event add_event append verify_event has_event
    verify_event_chain chain_checks too_late find init put new_event_id current_epoch
    set_event_callback tip compute_hash to_bytes le_bytes
fresh_id = refl

small-IsEvent : All IsEvent small.events
unfolding run step record_event create_event add_event append verify_event has_event
    verify_event_chain chain_checks too_late find init put new_event_id current_epoch
    set_event_callback tip compute_hash to_bytes le_bytes integrity_tag
small-IsEvent = (
  record {
    id_size = refl;
    type_byte = omega arith;
    source_size = refl;
    timestamp_fits = omega arith;
    epoch_fits = omega arith;
    previous_size = refl;
    payload_fits = omega arith;
    signature_size = refl;
  },
  (
    record {
      id_size = refl;
      type_byte = omega arith;
      source_size = refl;
      timestamp_fits = omega arith;
      epoch_fits = omega arith;
      previous_size = refl;
      payload_fits = omega arith;
      signature_size = refl;
    },
    tt,
  ),
)

small_sizes : All (λ e. length (to_bytes e) < 256 ^ 4) small.events
unfolding run step record_event create_event add_event append verify_event has_event
    verify_event_chain chain_checks too_late find init put new_event_id current_epoch
    set_event_callback tip compute_hash to_bytes le_bytes integrity_tag
small_sizes = (omega arith, (omega arith, tt))

small_timely : All (λ e. too_late 5000 e ≡ false) small.events
unfolding run step record_event create_event add_event append verify_event has_event
    verify_event_chain chain_checks too_late find init put new_event_id current_epoch
    set_event_callback tip compute_hash to_bytes le_bytes
small_timely = (refl, (refl, tt))

small_count : length small.events < 256 ^ 8
unfolding run step record_event create_event add_event append verify_event has_event
    verify_event_chain chain_checks too_late find init put new_event_id current_epoch
    set_event_callback tip compute_hash to_bytes le_bytes
small_count = omega arith

load_from_file-save_to_file_example :
    (q : Ledger) × (load_from_file toy 5000 (save_to_file small) (init bob) ≡ some q)
    × (q.events ≡ small.events)
    × IsStore toy q
load_from_file-save_to_file_example =
    load_from_file-save_to_file toy 5000 small (init bob) small-IsLedger.store small-IsEvent
      small_sizes small_timely small_count

-- a ledger whose latest hash is not the zero hash
abbrev moved : Ledger
moved = record (init alice) { latest_hash = bob }

moved_hash : bob ≢ zero_hash
moved_hash h = absurd (ground (arith, (bytes_eq_iff bob zero_hash).1 h))

emptied : load_from_file toy 10 (le_bytes 8 0) moved ≡ some (clear moved)
unfolding load_from_file load_events le_bytes read_scalar read_blob le_value
emptied = refl

ledger_round_trips_example :
    (from_bytes (to_bytes early_bird ++ 3 ∷ []) ≡ some early_bird)
    × (key_from_bytes (key_to_bytes issuance) ≡ some issuance)
    × (membership_from_bytes (membership_to_bytes membership) ≡ some membership)
    × (reputation_from_bytes (reputation_to_bytes update) ≡ some update)
ledger_round_trips_example =
    ledger_round_trips early_bird (3 ∷ []) issuance membership update early_bird-IsEvent
      (record {
        type_byte = omega arith;
        count_fits = omega arith;
        method_byte = omega arith;
        proof_size = refl;
      })
      (record { network_size = refl; member_size = refl; role_fits = omega arith })
      (record {
        subject_size = refl;
        delta_word = omega arith;
        reason_fits = omega arith;
        evidence_size = refl;
      })
