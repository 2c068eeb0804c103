-- ===== src/Ledger/Store.antt =====
-- The class Ledger of src/core/ledger/ledger.hpp, and its methods in ledger.cpp. The clock is an
-- argument, one reading for each call of a method. `delivered` lists the calls made of the
-- registered callback, whose exceptions the source swallows.
use cashew.Prelude.{
  ℕ, ◌+◌, ◌-◌, ◌/◌, ◌%◌, ◌^◌, Bool, true, false, not, Bytes, bytes_eq, bytes_ordered, Option, none,
  some, List, [], ◌∷◌, ◌++◌, length, get_elem?, drop, replicate, select, ltb, ◌==◌, if◌then◌else◌,
}
use cashew.Prelude.Map.{Map, find, put}
use cashew.Crypto.{Crypto}
use cashew.Codec.{le_bytes}
use cashew.Keys.KeyType.{KeyType}
use cashew.Ledger.EventType
use cashew.Ledger.EventType.{EventType}
use cashew.Ledger.Event.{LedgerEvent, compute_hash}
use cashew.Ledger.Payload.{key_to_bytes, membership_to_bytes, thing_to_bytes, reputation_to_bytes}
use cashew.Ledger.Index
use cashew.Ledger.Index.{LedgerIndex}

pub record Ledger : Type 0 where
  pub local_node_id : Bytes
  pub events : List LedgerEvent
  pub event_lookup : Map Bytes ℕ
  pub index : LedgerIndex
  pub latest_hash : Bytes
  pub event_counter : ℕ
  pub has_callback : Bool
  pub delivered : List LedgerEvent

-- Hash256{}
abbrev pub zero_hash : Bytes
zero_hash = replicate 32 0

-- MAX_FUTURE_SKEW_SECONDS
abbrev pub max_future_skew : ℕ
max_future_skew = 300

unfoldable pub init : Bytes → Ledger
init local_node_id = record {
  local_node_id = local_node_id;
  events = [];
  event_lookup = [];
  index = Index.empty;
  latest_hash = zero_hash;
  event_counter = 0;
  has_callback = false;
  delivered = [];
}

unfoldable pub set_event_callback : Ledger → Ledger
set_event_callback l = record l { has_callback = true }

unfoldable pub current_epoch : ℕ → ℕ
current_epoch now = now / 600

-- the hash of the last of a list of events, or `seed` of none
unfoldable pub tip : Crypto → Bytes → List LedgerEvent → Bytes
tip crypto seed [] = seed
tip crypto seed (e ∷ es) = tip crypto (compute_hash crypto e) es

unfoldable pub too_late : ℕ → LedgerEvent → Bool
too_late now e = ltb ((now + max_future_skew) % 2 ^ 64) e.timestamp

unfoldable pub chain_checks : Crypto → ℕ → List LedgerEvent → LedgerEvent → Bool
unfolding tip too_late
chain_checks crypto now [] e = bytes_eq e.previous_hash zero_hash
chain_checks crypto now (x ∷ xs) e =
    if not (bytes_eq e.previous_hash (tip crypto zero_hash (x ∷ xs)))
    then false
    else not (too_late now e)

unfoldable pub verify_event_chain : Crypto → ℕ → LedgerEvent → Ledger → Bool
unfolding chain_checks
verify_event_chain crypto now e l = chain_checks crypto now l.events e

-- event_lookup_.find(id) != end
unfoldable pub has_event : Bytes → Ledger → Bool
has_event id l = elim (find id l.event_lookup) [ none ↦ false | some i ↦ true ]

unfoldable pub verify_event : Crypto → ℕ → LedgerEvent → Ledger → Bool
unfolding has_event too_late
verify_event crypto now e l =
    if has_event e.event_id l
    then false
    else if not (verify_event_chain crypto now e l)
    then false
    else not (too_late now e)

-- the writes of add_event
unfoldable pub append : Crypto → LedgerEvent → Ledger → Ledger
append crypto e l = record l {
  events = l.events ++ e ∷ [];
  event_lookup = put e.event_id (length l.events) l.event_lookup;
  index = Index.add_event e l.index;
  latest_hash = compute_hash crypto e;
  delivered = if l.has_callback then l.delivered ++ e ∷ [] else l.delivered;
}

unfoldable pub add_event : Crypto → ℕ → LedgerEvent → Ledger → Ledger × Bytes
unfolding append
add_event crypto now e l =
    if not (verify_event crypto now e l) then (l, zero_hash) else (append crypto e l, e.event_id)

unfoldable pub add_external_event : Crypto → ℕ → LedgerEvent → Ledger → Ledger × Bool
add_external_event crypto now e l =
    if not (verify_event_chain crypto now e l)
    then (l, false)
    else if has_event e.event_id l
    then (l, false)
    else ((add_event crypto now e l).0, true)

unfoldable pub new_event_id : Crypto → ℕ → Ledger → Bytes
new_event_id crypto now l =
    crypto.hash (l.local_node_id ++ (le_bytes 8 l.event_counter ++ le_bytes 8 now))

-- the integrity tag in place of a signature: the digest, twice
unfoldable pub integrity_tag : Crypto → Bytes → Bytes → Bytes → Bytes
integrity_tag crypto id previous payload =
    let digest = crypto.hash (id ++ (previous ++ payload)) in digest ++ digest

unfoldable pub create_event : Crypto → ℕ → EventType → Bytes → Ledger → LedgerEvent × Ledger
unfolding new_event_id integrity_tag current_epoch
create_event crypto now type payload l =
    let id = new_event_id crypto now l in
    (
      record {
        event_id = id;
        event_type = type;
        source_node = l.local_node_id;
        timestamp = now;
        epoch = current_epoch now;
        previous_hash = l.latest_hash;
        payload = payload;
        signature = integrity_tag crypto id l.latest_hash payload;
      },
      record l { event_counter = (l.event_counter + 1) % 2 ^ 64 },
    )

-- the body that the record_ methods share
unfoldable pub record_event : Crypto → ℕ → EventType → Bytes → Ledger → Ledger × Bytes
unfolding create_event
record_event crypto now type payload l =
    let (e, l') = create_event crypto now type payload l in add_event crypto now e l'

unfoldable record_node_joined : Crypto → ℕ → Bytes → Ledger → Ledger × Bytes
record_node_joined crypto now node l = record_event crypto now EventType.node_joined node l

unfoldable record_node_left : Crypto → ℕ → Bytes → Ledger → Ledger × Bytes
record_node_left crypto now node l = record_event crypto now EventType.node_left node l

unfoldable record_key_issued : Crypto → ℕ → KeyType → ℕ → ℕ → Bytes → Ledger → Ledger × Bytes
record_key_issued crypto now type count method proof l =
    record_event crypto now EventType.key_issued
      (key_to_bytes (record { key_type = type; count = count; method = method; proof = proof })) l

unfoldable record_key_revoked : Crypto → ℕ → KeyType → ℕ → Bytes → Ledger → Ledger × Bytes
record_key_revoked crypto now type count reason l =
    record_event crypto now EventType.key_revoked
      (key_to_bytes (record {
        key_type = type;
        count = count;
        method = EventType.vouched_method;
        proof = crypto.hash reason;
      }))
      l

unfoldable record_network_created : Crypto → ℕ → Bytes → Ledger → Ledger × Bytes
record_network_created crypto now network l =
    record_event crypto now EventType.network_created network l

unfoldable record_network_member_added :
    Crypto → ℕ → Bytes → Bytes → Bytes → Ledger → Ledger × Bytes
record_network_member_added crypto now network member role l =
    record_event crypto now EventType.network_member_added
      (membership_to_bytes (record { network_id = network; member_node = member; role = role })) l

unfoldable record_thing_replicated :
    Crypto → ℕ → Bytes → Bytes → Bytes → ℕ → Ledger → Ledger × Bytes
record_thing_replicated crypto now content network host size l =
    record_event crypto now EventType.thing_replicated
      (thing_to_bytes (record {
        content_hash = content;
        network_id = network;
        hosting_node = host;
        size_bytes = size;
      }))
      l

unfoldable record_reputation_update : Crypto → ℕ → Bytes → ℕ → Bytes → Ledger → Ledger × Bytes
record_reputation_update crypto now subject delta reason l =
    record_event crypto now EventType.reputation_updated
      (reputation_to_bytes (record {
        subject_node = subject;
        score_delta = delta;
        reason = reason;
        evidence = zero_hash;
      }))
      l

unfoldable pub get_event : Bytes → Ledger → Option LedgerEvent
get_event id l = elim (find id l.event_lookup) [ none ↦ none | some i ↦ get_elem? l.events i ]

-- the events that a list of ids names, ids with no event left out
unfoldable pub resolve : Ledger → List Bytes → List LedgerEvent
unfolding get_event
resolve l [] = []
resolve l (id ∷ ids) = elim (get_event id l) [ none ↦ resolve l ids | some e ↦ e ∷ resolve l ids ]

unfoldable pub get_events_by_node : Bytes → Ledger → List LedgerEvent
unfolding resolve
get_events_by_node node l = resolve l (Index.get_events_by_node node l.index)

unfoldable get_events_by_type : EventType → Ledger → List LedgerEvent
get_events_by_type type l = select (λ e. e.event_type == type) l.events

unfoldable get_recent_events : ℕ → Ledger → List LedgerEvent
get_recent_events count l =
    drop (if ltb count (length l.events) then length l.events - count else 0) l.events

-- the loop of validate_chain, behind an event whose hash is `prev`
unfoldable pub validate_from : Crypto → Bytes → List LedgerEvent → Bool
validate_from crypto prev [] = true
validate_from crypto prev (e ∷ es) =
    let rest = validate_from crypto (compute_hash crypto e) es in
    if not (bytes_eq e.previous_hash prev) then false else rest

unfoldable pub validate : Crypto → List LedgerEvent → Bool
unfolding validate_from
validate crypto [] = true
validate crypto (e ∷ es) = validate_from crypto (compute_hash crypto e) es

unfoldable pub validate_chain : Crypto → Ledger → Bool
unfolding validate
validate_chain crypto l = validate crypto l.events
