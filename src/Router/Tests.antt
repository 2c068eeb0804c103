-- ===== src/Router/Tests.antt =====
-- The theorems on routing at concrete inputs.
use cashew.Prelude.{
  ℕ, suc, ◌+◌, ◌*◌, ◌/◌, ◌%◌, ◌^◌, ◌<◌, ◌≤◌, ◌≡◌, ◌≢◌, refl, Bool, true, false, not, ◌&&◌, Bytes,
  bytes_ordered, none, some, List, map, [], ◌∷◌, ◌++◌, All, length, replicate, take, ltb, ◌==◌,
  if◌then◌else◌, arith,
}
use cashew.Prelude.Map.{find, put}
use cashew.Prelude.Set.{contains}
use cashew.Crypto.Sample.{toy, alice, bob}
use cashew.Codec.{le_bytes, le_value}
use cashew.Codec.Parse.{accepted, overrun, raw_blob, raw_scalar}
use cashew.Router.Table.{
  Floats, RoutingEntry, RoutingTable, one_f, zero_f, minus_one_f, empty_table, score, get_entry,
  find_hosts_for_content, has_content_route, select_best_host, add_node, advertise_content,
}
use cashew.Router.Table.Consistency.{adds, advertises, changed, change, routes_agree}
use cashew.Router.Table.Selection.{Chosen, select_best_host_best}
use cashew.Router.Request.{
  ContentRequest, ContentResponse, read_layers, request_to_bytes, request_from_bytes,
  response_to_bytes, response_from_bytes,
}
use cashew.Router.Request.Codecs.{IsRequest, route_round_trips, route_parsers_safe}
use cashew.Router.Onion.{
  create_onion_layers, decrypt_onion_layer, wrap, xor_with_keystream, xor_blocks, xor_block, magic,
}
use cashew.Router.Onion.Peeling.{IsByte, peel_along, onion_peels}
use cashew.Router.State.{Router, init, next, select_next_hop, send_request_to_peer}
use cashew.Router.Node.{
  request_content, peeled, first_layer, can_serve_locally, forward, should_forward_request,
  get_pending_request, handle_content_request,
}
use cashew.Router.Node.Forwarding.{handle_content_request_returns}
use cashew.Router.Node.Relaying.{starts, relays, relay_ends}
use cashew.Router.Node.Answers.{deliveries, answered_by_other_content}
use cashew.Router.Node.Layers.{onion_one_hop, onion_misread}
use cashew.Router.Node.Delivery.{
  Call, asks, gets_response, run, asked_in, AreHashed, delivered_sound,
}

-- All bytes, by evaluation.
bytes_checked : Bytes → Bool
bytes_checked [] = true
bytes_checked (x ∷ xs) = ltb x 256 && bytes_checked xs

checked_bytes : (xs : Bytes) → bytes_checked xs ≡ true → All IsByte xs
unfolding bytes_checked
checked_bytes [] h = tt
checked_bytes (x ∷ xs) h = (ground (arith, h), checked_bytes xs (ground (arith, h)))

toy_digest : (m : Bytes) → (length (toy.hash m) ≡ 32) × All IsByte (toy.hash m)
unfolding bytes_checked
toy_digest m = (refl, checked_bytes (toy.hash m) (ground arith))

-- Floats that are ordered as numbers, but for -1 below them all.
abbrev below : ℕ → ℕ → Bool
below a b =
    if a == minus_one_f then not (b == minus_one_f) else if b == minus_one_f then false else ltb a b

abbrev plain : Floats
plain = record {
  lt = below;
  add = λ a b. b;
  mul = λ a b. b;
  div = λ a b. suc ((a / suc b) % 2 ^ 31);
  of_byte = λ a. a;
}

below_irreflexive : (x : ℕ) → below x x ≡ false
below_irreflexive x = ground arith

below_transitive : (x y z : ℕ) → below x y ≡ true → below y z ≡ true → below x z ≡ true
below_transitive x y z h k = ground arith

positive : (e : RoutingEntry) → below zero_f (score plain e) ≡ true
positive e = ground arith

abbrev song : Bytes
song = 1 ∷ 2 ∷ 3 ∷ []

abbrev song_hash : Bytes
song_hash = toy.hash song

abbrev table : RoutingTable
table = changed (adds 10 bob 2 ∷ advertises bob song_hash ∷ []) empty_table

select_best_host_best_example :
    Chosen plain 20 song_hash table (select_best_host plain 20 song_hash table)
select_best_host_best_example =
    select_best_host_best plain below_irreflexive below_transitive refl 20 song_hash table
      (λ host e found. positive e)

abbrev bobs_entry : RoutingEntry
bobs_entry = record {
  node_id = bob;
  advertised_content = song_hash ∷ [];
  hop_distance = 2;
  last_seen_timestamp = 10;
  reliability_score = one_f;
}

bobs_entry_there : get_entry bob table ≡ some bobs_entry
unfolding get_entry changed change add_node advertise_content find_hosts_for_content find put
    contains
bobs_entry_there = refl

bobs_song : contains song_hash bobs_entry.advertised_content ≡ true
unfolding contains
bobs_song = refl

routes_agree_example :
    (contains bob (find_hosts_for_content song_hash table) ≡ true)
    × (has_content_route song_hash table ≡ true)
routes_agree_example =
    routes_agree (adds 10 bob 2 ∷ advertises bob song_hash ∷ []) bob song_hash bobs_entry
      bobs_entry_there bobs_song

abbrev request : ContentRequest
request = record {
  content_hash = song_hash;
  requester_id = bob;
  request_id = replicate 32 5;
  hop_limit = 3;
  timestamp = 1000;
  onion_layers = [];
}

request-IsRequest : IsRequest request
request-IsRequest = record {
  hash_size = refl;
  requester_size = refl;
  id_size = refl;
  hop_byte = omega arith;
  timestamp_fits = omega arith;
  layers_fit = omega arith;
  layer_sizes = tt;
}

abbrev response : ContentResponse
response = record {
  content_hash = song_hash;
  content_data = song;
  hosting_node = bob;
  request_id = replicate 32 5;
  hop_count = 0;
  signature = replicate 64 0;
}

route_round_trips_example :
    (request_from_bytes (request_to_bytes request) ≡ accepted request)
    × (response_from_bytes (response_to_bytes response) ≡ accepted response)
route_round_trips_example = route_round_trips request response request-IsRequest (record {
  hash_size = refl;
  host_size = refl;
  id_size = refl;
  hop_byte = omega arith;
  content_fits = omega arith;
  signature_size = refl;
})

abbrev zeros : Bytes
zeros = replicate 170 0

route_parsers_safe_example :
    (request_from_bytes zeros ≢ overrun) × (response_from_bytes zeros ≢ overrun)
route_parsers_safe_example = route_parsers_safe zeros

ids_are_bytes : (All IsByte alice) × (All IsByte bob)
unfolding bytes_checked
ids_are_bytes = (checked_bytes alice refl, checked_bytes bob refl)

onion_peels_example :
    (layer : Bytes) × (create_onion_layers toy (alice ∷ bob ∷ []) song ≡ layer ∷ [])
    × (peel_along toy (alice ∷ bob ∷ []) layer ≡ some song)
onion_peels_example =
    onion_peels toy toy_digest alice (bob ∷ []) song
      ((refl, ids_are_bytes.0), ((refl, ids_are_bytes.1), tt))
      (omega arith, (omega arith, (omega arith, tt)))

request_bytes : All IsByte (request_to_bytes request)
unfolding request_to_bytes le_bytes bytes_checked
request_bytes = checked_bytes (request_to_bytes request) refl

-- a request for alice alone, and one that goes through alice to bob
abbrev to_alice : ContentRequest
to_alice = record request {
  onion_layers = create_onion_layers toy (alice ∷ []) (request_to_bytes request);
}

onion_one_hop_example :
    handle_content_request toy plain 20 [] 2 to_alice (init alice)
    ≡ handle_content_request toy plain 20 [] 1 request
        (record (init alice) { requests_received = next (init alice).requests_received })
unfolding init
onion_one_hop_example =
    onion_one_hop toy toy_digest plain 20 [] 1 to_alice request (init alice) request-IsRequest
      request_bytes refl (omega arith)

handle_content_request_returns_example :
    (r' : Router) × (handle_content_request toy plain 20 [] 1 request (init alice) ≡ some r')
handle_content_request_returns_example =
    handle_content_request_returns toy plain 20 [] 1 request (init alice) (omega arith)

-- a node that knows that bob has the song
abbrev node : Router
node = record (init alice) {
  routing_table = record {
    entries = (bob, bobs_entry) ∷ [];
    content_index = (song_hash, bob ∷ []) ∷ [];
  };
  has_request_callback = true;
  has_received_callback = true;
}

abbrev node_after : Router
node_after = record node {
  requests_received = 1;
  requests = (bob, record request { hop_limit = 2 }) ∷ [];
  forwards = 1;
}

node_forwards : handle_content_request toy plain 20 [] 1 request node ≡ some node_after
unfolding handle_content_request first_layer forward can_serve_locally select_next_hop
    select_best_host send_request_to_peer should_forward_request has_content_route find init
    contains
node_forwards = refl

relay_ends_example : (2 + 1 ≡ 3) × (1 < 3)
relay_ends_example =
    relay_ends
      (relays starts toy plain 20 [] 1 node node_after node_forwards 0 bob
        (record request { hop_limit = 2 }) (unfold init in omega arith) refl)
      refl

-- what alice reads in the layer that is meant for bob
abbrev misread : ContentRequest
misread = record {
  content_hash = magic ++ replicate 29 0;
  requester_id = 0 ∷ 0 ∷ 64 ∷ replicate 29 0;
  request_id = 0 ∷ 0 ∷ 65 ∷ replicate 29 0;
  hop_limit = 0;
  timestamp = 66 * 256;
  onion_layers = [];
}

abbrev blank_payload : Bytes
blank_payload = replicate 80 0

abbrev outer_layer : Bytes
outer_layer = wrap toy (alice ∷ bob ∷ []) blank_payload

layer_made : create_onion_layers toy (alice ∷ bob ∷ []) blank_payload ≡ outer_layer ∷ []
unfolding create_onion_layers
layer_made = refl

layer_read : peeled toy outer_layer (init alice) ≡ some misread
unfolding peeled decrypt_onion_layer wrap xor_with_keystream xor_blocks xor_block request_from_bytes
    read_layers raw_blob raw_scalar le_bytes le_value init
layer_read = refl

blank_bytes : All IsByte blank_payload
unfolding bytes_checked
blank_bytes = checked_bytes blank_payload refl

onion_misread_example : take 3 misread.content_hash ≡ magic
unfolding init
onion_misread_example =
    onion_misread toy toy_digest bob [] blank_payload outer_layer misread (init alice)
      ((refl, ids_are_bytes.1), tt) blank_bytes layer_made layer_read

delivered_sound_example :
    AreHashed toy
      (run toy (asks plain 20 [] song_hash 8 ∷ gets_response plain response ∷ []) node).received
    × (length
          (run toy (asks plain 20 [] song_hash 8 ∷ gets_response plain response ∷ []) node).received
        ≤ asked_in (asks plain 20 [] song_hash 8 ∷ gets_response plain response ∷ []))
unfolding init
delivered_sound_example =
    delivered_sound toy (asks plain 20 [] song_hash 8 ∷ gets_response plain response ∷ []) node refl
      refl

-- alice asks for another content, and gets the song under the id of her request
abbrev other_hash : Bytes
other_hash = replicate 32 8

abbrev asked_id : Bytes
asked_id = (request_content toy plain 10 [] other_hash 8 node).0

abbrev song_instead : ContentResponse
song_instead = record response { request_id = asked_id }

abbrev too_late : ContentResponse
too_late = record response { request_id = asked_id; content_hash = other_hash }

abbrev mixed_up : List Call
mixed_up =
    asks plain 10 [] other_hash 8
    ∷ gets_response plain song_instead
    ∷ map (gets_response plain) (too_late ∷ [])

answered_by_other_content_example :
    ((run toy mixed_up node).received ≡ [] ++ (song_hash, song) ∷ [])
    × (deliveries other_hash (run toy mixed_up node).received ≡ deliveries other_hash [])
    × (get_pending_request asked_id (run toy mixed_up node) ≡ none)
unfolding init
answered_by_other_content_example =
    answered_by_other_content toy plain 10 [] other_hash 8 song_instead (too_late ∷ []) node refl
      refl (λ e. cc) refl refl (refl, tt)
