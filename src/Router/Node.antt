-- ===== src/Router/Node.antt =====
-- The operations of Router, src/network/router.cpp.
pub mod Forwarding
pub mod Relaying
pub mod Layers
pub mod Quiet
pub mod Delivery
pub mod Answers
use cashew.Prelude.{
  ℕ, zero, suc, ◌+◌, ◌-◌, ◌%◌, ◌^◌, min, Bool, true, false, not, ◌&&◌, Bytes, bytes_eq,
  bytes_ordered, Option, none, some, List, [], ◌∷◌, ◌++◌, map, length, replicate, select, ltb, leb,
  ◌==◌, if◌then◌else◌, ◌>>=◌,
}
use cashew.Prelude.Map.{Map, find, put, erase}
use cashew.Prelude.Set.{contains, remove}
use cashew.Crypto.{Crypto}
use cashew.Codec.{le_bytes}
use cashew.Codec.Parse.{Parsed, accepted, refused, overrun}
use cashew.Keys.Key.{sub_64}
use cashew.Router.Table.{
  Floats, RoutingTable, one_f, empty_table, add_once, add_node, update_node_reliability,
  advertise_content, remove_content_advertisement, has_content_route, select_best_host,
  cleanup_stale_entries,
}
use cashew.Router.Request.{
  ContentRequest, ContentResponse, max_hop_limit, request_to_bytes, request_from_bytes,
}
use cashew.Router.Onion.{no_node, create_onion_layers, decrypt_onion_layer}
use cashew.Router.State.{
  PendingRequest, Router, init, timeout_seconds, has_timed_out, next, generate_request_id,
  select_next_hop, send_request_to_peer, send_response_to_peer, notify_not_found, track,
}

-- a request to its first hop, which is counted
pub send_first : Bytes → ContentRequest → Router → Router
unfolding send_request_to_peer
send_first hop q r =
    let r' = send_request_to_peer hop q r in record r' { requests_sent = next r'.requests_sent }

-- what request_content does with a request that it has noted; a node id is an array of 32 bytes, and
-- so never empty()
pub dispatch : Floats → ℕ → ContentRequest → Router → Router
unfolding select_next_hop send_first notify_not_found
dispatch fl now q r =
    let next_hop = select_next_hop fl now q.content_hash r in
    if not (length next_hop == 0)
    then send_first next_hop q r
    else notify_not_found q.content_hash r

pub request_content : Crypto → Floats → ℕ → Bytes → Bytes → ℕ → Router → Bytes × Router
unfolding generate_request_id track dispatch
request_content crypto fl now random_bytes content hop_limit r =
    let (id, r₁) = generate_request_id crypto random_bytes r in
    let q : ContentRequest = record {
      content_hash = content;
      requester_id = r.local_node_id;
      request_id = id;
      hop_limit = min hop_limit max_hop_limit;
      timestamp = now;
      onion_layers = [];
    } in
    (id, dispatch fl now q (track q r₁))

-- the request, whose layer holds the request without layers
abbrev pub onion_request : Crypto → ℕ → Bytes → Bytes → List Bytes → Router → ContentRequest
onion_request crypto now id content route r =
    let plain : ContentRequest = record {
      content_hash = content;
      requester_id = r.local_node_id;
      request_id = id;
      hop_limit = (length route + 2) % 2 ^ 8;
      timestamp = now;
      onion_layers = [];
    } in
    record plain { onion_layers = create_onion_layers crypto route (request_to_bytes plain) }

pub request_content_with_onion_routing :
    Crypto → ℕ → Bytes → Bytes → List Bytes → Router → Bytes × Router
unfolding generate_request_id track send_first
request_content_with_onion_routing crypto now random_bytes content route r =
    let (id, r₁) = generate_request_id crypto random_bytes r in
    let q = onion_request crypto now id content route r in
    let r₂ = track q r₁ in elim route [ [] ↦ (id, r₂) | hop ∷ hops ↦ (id, send_first hop q r₂) ]

unfoldable pub can_serve_locally : Bytes → Router → Bool
can_serve_locally content r = contains content r.local_content

unfoldable pub should_forward_request : ContentRequest → Router → Bool
should_forward_request q r =
    if leb q.hop_limit 1
    then false
    else if bytes_eq q.requester_id r.local_node_id
    then false
    else has_content_route q.content_hash r.routing_table

-- the content of a local request: nothing, if no callback is set
abbrev pub fetched : Bytes → Router → Option Bytes
fetched content r = elim r.local_content_fetch_callback [
  | none ↦ some []
  | some fetch ↦ fetch content
]

-- the response, signed with zeroes if no callback is set
abbrev pub local_response : ContentRequest → Bytes → Bytes → Router → ContentResponse
local_response q content_data blank r =
    let s : ContentResponse = record {
      content_hash = q.content_hash;
      content_data = content_data;
      hosting_node = r.local_node_id;
      request_id = q.request_id;
      hop_count = 0;
      signature = blank;
    } in
    record s {
      signature = elim r.response_sign_callback [ none ↦ replicate 64 0 | some sign ↦ sign s ];
    }

-- the std::optional that a parser returns
abbrev pub as_option {ℓ} : {A : Type ℓ} → Parsed A → Option A
as_option (accepted a) = some a
as_option refused = none
as_option overrun = none

-- what handle_content_request does with a request of local content
pub serve : Bytes → ContentRequest → Router → Router
unfolding send_response_to_peer
serve blank q r = elim (fetched q.content_hash r) [
  | none ↦ r
  | some content_data ↦
      let r' = send_response_to_peer q.requester_id (local_response q content_data blank r) r in
      record r' { responses_sent = next r'.responses_sent }
]

-- and with one that it may pass on
unfoldable pub forward : Floats → ℕ → ContentRequest → Router → Router
unfolding should_forward_request select_next_hop send_request_to_peer
forward fl now q r =
    if not (should_forward_request q r)
    then r
    else let next_hop = select_next_hop fl now q.content_hash r in
      if length next_hop == 0
      then r
      else let r' = send_request_to_peer next_hop (record q { hop_limit = q.hop_limit - 1 }) r in
        record r' { forwards = next r'.forwards }

-- the request inside an onion layer; no bytes make the parser overrun
unfoldable pub peeled : Crypto → Bytes → Router → Option ContentRequest
unfolding decrypt_onion_layer request_from_bytes
peeled crypto layer r = do
  plain ← decrypt_onion_layer crypto r.local_node_id layer
  as_option (request_from_bytes plain)

-- `request.onion_layers[0]`, unless there are none
unfoldable pub first_layer : ContentRequest → Option Bytes
first_layer q = elim q.onion_layers [ [] ↦ none | layer ∷ layers ↦ some layer ]

-- The recursion takes one round of fuel; `none` is that the fuel ran out. `blank` is what the
-- uninitialised signature of a response holds.
unfoldable pub handle_content_request :
    Crypto → Floats → ℕ → Bytes → ℕ → ContentRequest → Router → Option Router
unfolding peeled first_layer can_serve_locally serve forward
handle_content_request crypto fl now blank zero q r = none
handle_content_request crypto fl now blank (suc fuel) q r =
    let r' = record r { requests_received = next r.requests_received } in
    elim (q.hop_limit == 0) [
      | true ↦ some r'
      | false ↦ elim (first_layer q) [
        | none ↦
            some (
              if can_serve_locally q.content_hash r' then serve blank q r' else forward fl now q r')
        | some layer ↦ elim (peeled crypto layer r') [
          | none ↦ some r'
          | some inner ↦ handle_content_request crypto fl now blank fuel inner r'
        ]
      ]
    ]

-- response_verify_callback_, if it is set
abbrev pub verified : ContentResponse → Router → Bool
verified s r = elim r.response_verify_callback [ none ↦ true | some verify ↦ verify s ]

-- what handle_content_response does with a response that it believes
pub deliver : Floats → ContentResponse → Router → Router
deliver fl s r = record r {
  received =
      if r.has_received_callback
      then r.received ++ (s.content_hash, s.content_data) ∷ []
      else r.received;
  routing_table = update_node_reliability fl s.hosting_node one_f r.routing_table;
  pending_requests = erase s.request_id r.pending_requests;
}

pub handle_content_response : Crypto → Floats → ContentResponse → Router → Router
unfolding deliver
handle_content_response crypto fl s r =
    let r' = record r { responses_received = next r.responses_received } in
    elim (find s.request_id r'.pending_requests) [
      | none ↦ r'
      | some pending ↦
          if not (bytes_eq (crypto.hash s.content_data) s.content_hash)
          then r'
          else if not (verified s r')
          then r'
          else deliver fl s r'
    ]

pub update_routing_table : ℕ → Bytes → ℕ → Router → Router
update_routing_table now node hops r = record r {
  routing_table = add_node now node hops r.routing_table;
}

pub advertise_local_content : Bytes → Router → Router
advertise_local_content content r = record r {
  local_content = add_once content r.local_content;
  routing_table = advertise_content r.local_node_id content r.routing_table;
}

pub remove_local_content : Bytes → Router → Router
remove_local_content content r = record r {
  local_content = remove content r.local_content;
  routing_table = remove_content_advertisement r.local_node_id content r.routing_table;
}

pub get_pending_request : Bytes → Router → Option PendingRequest
get_pending_request id r = find id r.pending_requests

pub cancel_request : Bytes → Router → Router
cancel_request id r = record r { pending_requests = erase id r.pending_requests }

-- the entries that have timed out, in the order of the map
pub timed_out : ℕ → Map Bytes PendingRequest → List (Bytes × Bytes)
unfolding has_timed_out
timed_out now [] = []
timed_out now ((id, p) ∷ m) =
    let others = timed_out now m in
    if has_timed_out now p then (id, p.content_hash) ∷ others else others

pub notify_all : List (Bytes × Bytes) → Router → Router
unfolding notify_not_found
notify_all [] r = r
notify_all ((id, content) ∷ out) r = notify_all out (notify_not_found content r)

pub cancel_all : List (Bytes × Bytes) → Router → Router
unfolding cancel_request
cancel_all [] r = r
cancel_all ((id, content) ∷ out) r = cancel_all out (cancel_request id r)

pub cleanup_timed_out_requests : ℕ → Router → Router
unfolding timed_out notify_all cancel_all
cleanup_timed_out_requests now r =
    let out = timed_out now r.pending_requests in cancel_all out (notify_all out r)

pub update_statistics : ℕ → Router → Router
unfolding cleanup_timed_out_requests
update_statistics now r =
    cleanup_timed_out_requests now
      (record r { routing_table = cleanup_stale_entries now r.routing_table })
