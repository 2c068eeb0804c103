-- ===== src/Gossip/Announce.antt =====
-- The payloads of gossip messages: NodeCapabilities, PeerAnnouncement, ContentAnnouncement and
-- NetworkStateUpdate of src/network/gossip.hpp, and their codecs in gossip.cpp.
pub mod RoundTrip
pub mod Bounds
use cashew.Prelude.{
  ℕ, zero, suc, ◌+◌, ◌/◌, ◌%◌, Bool, true, false, Bytes, Option, none, some, List, [], ◌∷◌, ◌++◌,
  length, ltb, ◌==◌, if◌then◌else◌,
}
use cashew.Codec.{le_bytes}
use cashew.Codec.Parse.{
  Parsed, accepted, refused, raw_blob, raw_scalar, checked_blob, checked_scalar, ◌>>=◌,
}

pub record NodeCapabilities : Type 0 where
  pub can_host_things : Bool
  pub can_route_content : Bool
  pub can_provide_storage : Bool
  pub storage_capacity_bytes : ℕ
  pub bandwidth_capacity_mbps : ℕ

pub record PeerAnnouncement : Type 0 where
  pub node_id : Bytes
  pub public_key : Bytes
  pub capabilities : NodeCapabilities
  pub timestamp : ℕ
  pub signature : Bytes

pub record ContentAnnouncement : Type 0 where
  pub content_hash : Bytes
  pub content_size : ℕ
  pub hosting_node : Bytes
  pub network_id : Option Bytes
  pub timestamp : ℕ
  pub signature : Bytes

pub record NetworkStateUpdate : Type 0 where
  pub epoch_number : ℕ
  pub active_nodes : List Bytes
  pub pow_difficulty : ℕ
  pub entropy_seed : Bytes
  pub timestamp : ℕ
  pub signatures : List Bytes

-- the OR of the three flags, which have different bits
abbrev pub flag_byte : NodeCapabilities → ℕ
flag_byte c =
    (if c.can_host_things then 1 else 0)
    + (if c.can_route_content then 2 else 0)
    + (if c.can_provide_storage then 4 else 0)

pub capabilities_to_bytes : NodeCapabilities → Bytes
capabilities_to_bytes c =
    le_bytes 1 (flag_byte c)
    ++ (le_bytes 8 c.storage_capacity_bytes ++ le_bytes 8 c.bandwidth_capacity_mbps)

-- flags & 1, flags & 2, flags & 4
pub capabilities_from_bytes : Bytes → Parsed NodeCapabilities
capabilities_from_bytes data_ = if ltb (length data_) 17 then refused else do
  (flags, a₁) ← raw_scalar 1 data_
  (storage, a₂) ← raw_scalar 8 a₁
  (bandwidth, a₃) ← raw_scalar 8 a₂
  accepted (record {
    can_host_things = flags % 2 == 1;
    can_route_content = (flags / 2) % 2 == 1;
    can_provide_storage = (flags / 4) % 2 == 1;
    storage_capacity_bytes = storage;
    bandwidth_capacity_mbps = bandwidth;
  })

unfoldable pub peer_to_bytes : PeerAnnouncement → Bytes
unfolding capabilities_to_bytes
peer_to_bytes p =
    p.node_id
    ++ (p.public_key
        ++ (capabilities_to_bytes p.capabilities ++ (le_bytes 8 p.timestamp ++ p.signature)))

-- 32 + 32 + 17 + 8 + 64
pub peer_from_bytes : Bytes → Parsed PeerAnnouncement
unfolding capabilities_from_bytes
peer_from_bytes data_ = if ltb (length data_) 153 then refused else do
  (node_id, a₁) ← raw_blob 32 data_
  (public_key, a₂) ← raw_blob 32 a₁
  (caps_data, a₃) ← raw_blob 17 a₂
  caps ← capabilities_from_bytes caps_data
  (timestamp, a₄) ← raw_scalar 8 a₃
  (signature, a₅) ← raw_blob 64 a₄
  accepted (record {
    node_id = node_id;
    public_key = public_key;
    capabilities = caps;
    timestamp = timestamp;
    signature = signature;
  })

abbrev pub network_field : Option Bytes → Bytes
network_field none = le_bytes 1 0
network_field (some id) = le_bytes 1 1 ++ id

unfoldable pub content_to_bytes : ContentAnnouncement → Bytes
content_to_bytes c =
    c.content_hash
    ++ (le_bytes 8 c.content_size
        ++ (c.hosting_node
            ++ (network_field c.network_id ++ (le_bytes 8 c.timestamp ++ c.signature))))

-- the id is read with a check of its own, if the flag is 1
pub read_network : ℕ → Bytes → Parsed (Option Bytes × Bytes)
read_network has_network ahead = elim (has_network == 1) [
  | true ↦ do (id, rest) ← checked_blob 32 ahead; accepted (some id, rest)
  | false ↦ accepted (none, ahead)
]

-- 32 + 8 + 32 + 1 + 8 + 64
pub content_from_bytes : Bytes → Parsed ContentAnnouncement
unfolding read_network
content_from_bytes data_ = if ltb (length data_) 145 then refused else do
  (content_hash, a₁) ← raw_blob 32 data_
  (content_size, a₂) ← raw_scalar 8 a₁
  (hosting_node, a₃) ← raw_blob 32 a₂
  (has_network, a₄) ← raw_scalar 1 a₃
  (network_id, a₅) ← read_network has_network a₄
  (timestamp, a₆) ← raw_scalar 8 a₅
  (signature, a₇) ← raw_blob 64 a₆
  accepted (record {
    content_hash = content_hash;
    content_size = content_size;
    hosting_node = hosting_node;
    network_id = network_id;
    timestamp = timestamp;
    signature = signature;
  })

-- the loops that append each entry
pub joined : List Bytes → Bytes
joined [] = []
joined (b ∷ bs) = b ++ joined bs

pub state_to_bytes : NetworkStateUpdate → Bytes
unfolding joined
state_to_bytes s =
    le_bytes 8 s.epoch_number
    ++ (le_bytes 4 (length s.active_nodes)
        ++ (joined s.active_nodes
            ++ (le_bytes 4 s.pow_difficulty
                ++ (le_bytes 4 (length s.entropy_seed)
                    ++ (s.entropy_seed
                        ++ (le_bytes 8 s.timestamp
                            ++ (le_bytes 4 (length s.signatures) ++ joined s.signatures)))))))

-- the loops that read entries of one size, each with its check
pub read_entries : ℕ → ℕ → Bytes → Parsed (List Bytes × Bytes)
read_entries size zero ahead = accepted ([], ahead)
read_entries size (suc count) ahead = do
  (b, a) ← checked_blob size ahead
  (bs, rest) ← read_entries size count a
  accepted (b ∷ bs, rest)

-- 8 + 4 + 4 + 4 + 8 + 4
pub state_from_bytes : Bytes → Parsed NetworkStateUpdate
unfolding read_entries
state_from_bytes data_ = if ltb (length data_) 32 then refused else do
  (epoch_number, a₁) ← raw_scalar 8 data_
  (node_count, a₂) ← raw_scalar 4 a₁
  (active_nodes, a₃) ← read_entries 32 node_count a₂
  (pow_difficulty, a₄) ← raw_scalar 4 a₃
  (seed_size, a₅) ← raw_scalar 4 a₄
  (entropy_seed, a₆) ← checked_blob seed_size a₅
  (timestamp, a₇) ← raw_scalar 8 a₆
  (sig_count, a₈) ← raw_scalar 4 a₇
  (signatures, a₉) ← read_entries 64 sig_count a₈
  accepted (record {
    epoch_number = epoch_number;
    active_nodes = active_nodes;
    pow_difficulty = pow_difficulty;
    entropy_seed = entropy_seed;
    timestamp = timestamp;
    signatures = signatures;
  })
