-- ===== src/Gossip/Protocol.antt =====
-- GossipProtocol of src/network/gossip.hpp and gossip.cpp. The clock is an argument. `draw` stands for
-- Random::uniform: a round and a bound give an index. A handler is a number; `handled` lists the calls
-- of handlers and `sent` those of the send callback.
pub mod Seen
pub mod Flood
use cashew.Prelude.{
  ℕ, zero, suc, ◌+◌, ◌-◌, ◌%◌, ◌^◌, min, Bool, true, false, not, ◌||◌, Bytes, bytes_eq,
  bytes_ordered, Option, none, some, List, [], ◌∷◌, ◌++◌, map, length, get_elem?, take, drop,
  replicate, select, ltb, leb, ◌==◌, if◌then◌else◌,
}
use cashew.Prelude.Set.{contains, remove}
use cashew.Crypto.{Crypto}
use cashew.Keys.Key.{sub_64}
use cashew.Gossip.Announce.{
  NodeCapabilities, PeerAnnouncement, ContentAnnouncement, peer_to_bytes, content_to_bytes,
}
use cashew.Gossip.Message.{
  GossipMessage, compute_id, is_too_old, has_exceeded_hops, peer_announcement, content_announcement,
}

pub record SeenMessage : Type 0 where
  pub message_id : Bytes
  pub timestamp : ℕ

pub record GossipProtocol : Type 0 where
  pub local_node_id : Bytes
  pub peers : List Bytes
  pub seen_messages : List SeenMessage
  pub handlers : List (ℕ × ℕ)
  pub fanout : ℕ
  pub max_seen_messages : ℕ
  pub messages_received : ℕ
  pub messages_sent : ℕ
  pub send_callback : Option (Bytes → GossipMessage → Bool)
  pub local_public_key : Option Bytes
  pub sign_callback : Option (Bytes → Bytes)
  pub handled : List (ℕ × GossipMessage)
  pub sent : List (Bytes × GossipMessage)

-- DEFAULT_FANOUT and DEFAULT_MAX_SEEN
unfoldable pub init : Bytes → GossipProtocol
init local_node_id = record {
  local_node_id = local_node_id;
  peers = [];
  seen_messages = [];
  handlers = [];
  fanout = 3;
  max_seen_messages = 10000;
  messages_received = 0;
  messages_sent = 0;
  send_callback = none;
  local_public_key = none;
  sign_callback = none;
  handled = [];
  sent = [];
}

abbrev pub Draw : Type 0
Draw = ℕ → ℕ → ℕ

pub seen_in : Bytes → List SeenMessage → Bool
seen_in id [] = false
seen_in id (s ∷ rest) = bytes_eq s.message_id id || seen_in id rest

unfoldable pub has_seen_message : Bytes → GossipProtocol → Bool
unfolding seen_in
has_seen_message id p = seen_in id p.seen_messages

unfoldable pub should_propagate : ℕ → GossipMessage → GossipProtocol → Bool
unfolding has_seen_message is_too_old has_exceeded_hops
should_propagate now m p =
    if has_seen_message m.message_id p
    then false
    else if is_too_old now m
    then false
    else if has_exceeded_hops m
    then false
    else true

unfoldable pub mark_as_seen : ℕ → Bytes → GossipProtocol → GossipProtocol
mark_as_seen now id p =
    let kept =
      if leb p.max_seen_messages (length p.seen_messages)
      then drop 1 p.seen_messages
      else p.seen_messages in
    record p { seen_messages = kept ++ record { message_id = id; timestamp = now } ∷ [] }

unfoldable pub invoke_handlers : GossipMessage → GossipProtocol → GossipProtocol
invoke_handlers m p = record p {
  handled = p.handled ++ map (λ h. (h.1, m)) (select (λ (h : ℕ × ℕ). h.0 == m.type) p.handlers);
}

-- available.erase(available.begin() + index)
unfoldable pub erase_at : ℕ → List Bytes → List Bytes
erase_at index xs = take index xs ++ drop (suc index) xs

-- the loop of get_random_peers, over the rounds left
unfoldable pub pick : Draw → ℕ → List Bytes → List Bytes
unfolding erase_at
pick draw zero available = []
pick draw (suc rounds) available = elim (get_elem? available (draw rounds (length available))) [
  | none ↦ []
  | some peer ↦ peer ∷ pick draw rounds (erase_at (draw rounds (length available)) available)
]

unfoldable pub get_random_peers : Draw → ℕ → GossipProtocol → List Bytes
unfolding pick
get_random_peers draw count p = pick draw (min count (length p.peers)) p.peers

unfoldable pub send_to_peer : Bytes → GossipMessage → GossipProtocol → GossipProtocol
send_to_peer peer m p =
    let count = (p.messages_sent + 1) % 2 ^ 64 in
    elim p.send_callback [
      | none ↦ record p { messages_sent = count }
      | some send ↦ record p {
        sent = p.sent ++ (peer, m) ∷ [];
        messages_sent = if send peer m then count else p.messages_sent;
      }
    ]

-- the loops over the peers to forward to
unfoldable pub send_all : List Bytes → GossipMessage → GossipProtocol → GossipProtocol
unfolding send_to_peer
send_all [] m p = p
send_all (peer ∷ peers) m p = send_all peers m (send_to_peer peer m p)

-- hop_count is a uint8_t
abbrev pub forwarded : GossipMessage → GossipMessage
forwarded m = record m { hop_count = (m.hop_count + 1) % 2 ^ 8 }

-- what receive_message does with a message that it propagates
unfoldable pub accept : Draw → ℕ → GossipMessage → GossipProtocol → GossipProtocol
unfolding mark_as_seen invoke_handlers get_random_peers send_all
accept draw now m p =
    let p' = invoke_handlers m (mark_as_seen now m.message_id p) in
    send_all (get_random_peers draw p'.fanout p') (forwarded m) p'

unfoldable pub receive_message : Draw → ℕ → GossipMessage → GossipProtocol → GossipProtocol
unfolding should_propagate accept
receive_message draw now m p =
    let p' = record p { messages_received = (p.messages_received + 1) % 2 ^ 64 } in
    if not (should_propagate now m p') then p' else accept draw now m p'

pub broadcast_message : Draw → ℕ → GossipMessage → GossipProtocol → GossipProtocol
unfolding mark_as_seen get_random_peers send_all
broadcast_message draw now m p =
    let p' = mark_as_seen now m.message_id p in
    let peers = get_random_peers draw p'.fanout p' in
    let p'' = send_all peers m p' in
    record p'' { messages_sent = (p''.messages_sent + length peers) % 2 ^ 64 }

unfoldable send_direct_message : Bytes → GossipMessage → GossipProtocol → GossipProtocol × Bool
unfolding send_to_peer
send_direct_message peer m p = (send_to_peer peer m p, true)

-- The signature of a record that ends in a signature field, of all zeroes without a callback: the
-- bytes of the record less those of the field go to the callback.
signature_of : GossipProtocol → Bytes → Bytes → Bytes
signature_of p record_bytes field = elim p.sign_callback [
  | none ↦ replicate 64 0
  | some sign ↦ sign (take (length record_bytes - length field) record_bytes)
]

-- The message around a payload; its id is the hash of a record whose id is still uninitialised.
pub envelope : Crypto → ℕ → Bytes → ℕ → Bytes → GossipMessage
unfolding compute_id
envelope crypto type payload timestamp blank =
    let m : GossipMessage = record {
      type = type;
      message_id = blank;
      payload = payload;
      timestamp = timestamp;
      hop_count = 0;
    } in
    record m { message_id = compute_id crypto m }

-- `blank` and `blank_id` are what uninitialised members hold
unfoldable create_peer_announcement :
    Crypto → NodeCapabilities → ℕ → Bytes → Bytes → GossipProtocol → GossipMessage
unfolding peer_to_bytes signature_of envelope
create_peer_announcement crypto caps now blank blank_id p =
    let a : PeerAnnouncement = record {
      node_id = p.local_node_id;
      public_key = elim p.local_public_key [ none ↦ replicate 32 0 | some key ↦ key ];
      capabilities = caps;
      timestamp = now;
      signature = blank;
    } in
    envelope crypto peer_announcement
      (peer_to_bytes (record a { signature = signature_of p (peer_to_bytes a) blank })) now blank_id

unfoldable create_content_announcement :
    Crypto → Bytes → ℕ → Option Bytes → ℕ → Bytes → Bytes → GossipProtocol → GossipMessage
unfolding content_to_bytes signature_of envelope
create_content_announcement crypto content size network now blank blank_id p =
    let a : ContentAnnouncement = record {
      content_hash = content;
      content_size = size;
      hosting_node = p.local_node_id;
      network_id = network;
      timestamp = now;
      signature = blank;
    } in
    envelope crypto content_announcement
      (content_to_bytes (record a { signature = signature_of p (content_to_bytes a) blank })) now
      blank_id

unfoldable register_handler : ℕ → ℕ → GossipProtocol → GossipProtocol
register_handler type handler p = record p { handlers = p.handlers ++ (type, handler) ∷ [] }

unfoldable unregister_handler : ℕ → GossipProtocol → GossipProtocol
unregister_handler type p = record p {
  handlers = select (λ (h : ℕ × ℕ). not (h.0 == type)) p.handlers;
}

pub add_peer : Bytes → GossipProtocol → GossipProtocol
add_peer peer p = if contains peer p.peers then p else record p { peers = p.peers ++ peer ∷ [] }

pub remove_peer : Bytes → GossipProtocol → GossipProtocol
remove_peer peer p = record p { peers = remove peer p.peers }

-- SEEN_MESSAGE_TTL_SECONDS
abbrev seen_ttl : ℕ
seen_ttl = 600

unfoldable cleanup_old_seen_messages : ℕ → GossipProtocol → GossipProtocol
cleanup_old_seen_messages now p = record p {
  seen_messages =
      select (λ (s : SeenMessage). not (ltb seen_ttl (sub_64 now s.timestamp))) p.seen_messages;
}
