-- ===== src/Gossip/Tests.antt =====
-- The theorems on gossip at concrete inputs.
use cashew.Prelude.{
  ◌+◌, ◌%◌, ◌^◌, ◌<◌, ◌≤◌, ◌≡◌, ◌↔◌, refl, true, false, Bytes, bytes_ordered, some, [], ◌∷◌, length,
  get_elem?, replicate, arith,
}
use cashew.Crypto.Sample.{alice, bob}
use cashew.Codec.Parse.{accepted, overrun}
use cashew.Gossip.Announce.{
  PeerAnnouncement, ContentAnnouncement, peer_to_bytes, content_to_bytes, NetworkStateUpdate,
  state_to_bytes, state_from_bytes, content_from_bytes, peer_from_bytes,
}
use cashew.Gossip.Announce.Bounds.{network_flag}
use cashew.Gossip.Message.{GossipMessage, to_bytes, from_bytes, is_too_old, has_exceeded_hops}
use cashew.Gossip.Message.Bounds.{gossip_round_trips, gossip_overruns, announced}
use cashew.Gossip.Protocol.{
  GossipProtocol, Draw, init, has_seen_message, should_propagate, forwarded, receive_message,
  accept, mark_as_seen, invoke_handlers, get_random_peers, pick, erase_at, send_all, send_to_peer,
}
use cashew.Gossip.Protocol.Seen.{meets, run, handled_once}
use cashew.Gossip.Protocol.Flood.{starts, hops, flood_ends}

abbrev message : GossipMessage
message = record {
  type = 1;
  message_id = replicate 32 7;
  payload = 1 ∷ 2 ∷ [];
  timestamp = 1000;
  hop_count = 9;
}

abbrev first : Draw
first round bound = 0

-- a node with two peers that sends every message
abbrev node : GossipProtocol
node = record (init alice) { peers = alice ∷ bob ∷ []; send_callback = some (λ peer m. true) }

node_fresh : should_propagate 1100 message (init alice) ≡ true
unfolding init should_propagate has_seen_message is_too_old has_exceeded_hops
node_fresh = refl

handled_once_example :
    receive_message first 1300 message
      (run (meets bob ∷ []) (receive_message first 1100 message (init alice)))
    ≡ record (run (meets bob ∷ []) (receive_message first 1100 message (init alice))) {
      messages_received =
          ((run
              (meets bob ∷ [])
              (receive_message first 1100 message (init alice))).messages_received
            + 1)
          % 2 ^ 64;
    }
handled_once_example =
    handled_once first first 1100 1300 message message (meets bob ∷ []) (init alice) node_fresh refl
      (unfold init in omega arith)

node_sends :
    get_elem? (receive_message first 1100 message node).sent 1 ≡ some (bob, forwarded message)
unfolding receive_message accept mark_as_seen invoke_handlers get_random_peers pick erase_at
    send_all send_to_peer init should_propagate has_seen_message is_too_old has_exceeded_hops
node_sends = refl

flood_ends_example : ((forwarded message).hop_count ≡ 9 + 1) × (9 + 1 ≤ 10)
flood_ends_example =
    flood_ends
      (hops starts first 1100 node 1 bob (forwarded message) (unfold init in omega arith)
        node_sends)
      (omega arith)

abbrev zeros : Bytes
zeros = replicate 46 0

abbrev ones : Bytes
ones = replicate 145 1

abbrev blank_peer : Bytes
blank_peer = replicate 153 0

abbrev update : NetworkStateUpdate
update = record {
  epoch_number = 4;
  active_nodes = alice ∷ bob ∷ [];
  pow_difficulty = 6;
  entropy_seed = 1 ∷ 2 ∷ 3 ∷ [];
  timestamp = 1000;
  signatures = replicate 64 5 ∷ [];
}

abbrev peer : PeerAnnouncement
peer = record {
  node_id = alice;
  public_key = replicate 32 3;
  capabilities = record {
    can_host_things = true;
    can_route_content = false;
    can_provide_storage = true;
    storage_capacity_bytes = 5000;
    bandwidth_capacity_mbps = 100;
  };
  timestamp = 1000;
  signature = replicate 64 4;
}

abbrev content : ContentAnnouncement
content = record {
  content_hash = replicate 32 9;
  content_size = 12;
  hosting_node = alice;
  network_id = some (replicate 32 6);
  timestamp = 1000;
  signature = replicate 64 4;
}

id_size : (id : Bytes) → content.network_id ≡ some id → length id ≡ 32
id_size id e = let same : replicate 32 6 ≡ id = cc in rw (← same) refl

gossip_round_trips_example :
    (from_bytes (to_bytes message) ≡ accepted message)
    × (peer_from_bytes (peer_to_bytes peer) ≡ accepted peer)
    × (content_from_bytes (content_to_bytes content) ≡ accepted content)
    × (state_from_bytes (state_to_bytes update) ≡ accepted update)
gossip_round_trips_example =
    gossip_round_trips message peer content update
      (record {
        type_byte = omega arith;
        id_size = refl;
        payload_fits = omega arith;
        timestamp_fits = omega arith;
        hop_byte = omega arith;
      })
      (record {
        id_size = refl;
        key_size = refl;
        caps = record { storage_fits = omega arith; bandwidth_fits = omega arith };
        timestamp_fits = omega arith;
        signature_size = refl;
      })
      (record {
        hash_size = refl;
        size_fits = omega arith;
        host_size = refl;
        network_size = id_size;
        timestamp_fits = omega arith;
        signature_size = refl;
      })
      (record {
        epoch_fits = omega arith;
        node_sizes = (refl, (refl, tt));
        nodes_fit = omega arith;
        difficulty_fits = omega arith;
        seed_fits = omega arith;
        timestamp_fits = omega arith;
        signature_sizes = (refl, tt);
        signatures_fit = omega arith;
      })

gossip_overruns_example :
    ((content_from_bytes ones ≡ overrun)
      ↔ ((145 ≤ length ones) × (length ones < 177) × (network_flag ones ≡ 1)))
    × ((from_bytes ones ≡ overrun) ↔ (
        (46 ≤ length ones)
        × (announced ones + 37 ≤ length ones)
        × (length ones < announced ones + 46)))
gossip_overruns_example = gossip_overruns ones
