-- ===== src/Gossip/Announce/RoundTrip.antt =====
-- What the codecs of gossip payloads write is read back.
use cashew.Prelude.{
  ℕ, ◌+◌, ◌/◌, ◌%◌, ◌^◌, ◌<◌, ◌≤◌, ◌≡◌, refl, Bool, Bytes, Option, none, some, List, [], ◌∷◌, ◌++◌,
  All, length, append_assoc, append-nil, length-append, le→ltb, ◌==◌, if◌then◌else◌, arith,
}
use mathlib.Core.Path.{subst}
use cashew.Codec.{le_bytes}
use cashew.Codec.Laws.{length-le_bytes}
use cashew.Codec.Parse.{
  accepted, raw_blob-append, raw_scalar-append, checked_blob-append, raw_scalar_end, raw_blob_end,
}
use cashew.Gossip.Announce.{
  NodeCapabilities, PeerAnnouncement, ContentAnnouncement, NetworkStateUpdate, flag_byte,
  network_field, capabilities_to_bytes, capabilities_from_bytes, peer_to_bytes, peer_from_bytes,
  content_to_bytes, content_from_bytes, read_network, joined, read_entries, state_to_bytes,
  state_from_bytes,
}

-- The fields have the widths of their C++ types.
pub record IsCapabilities (c : NodeCapabilities) : Type 0 where
  pub storage_fits : c.storage_capacity_bytes < 256 ^ 8
  pub bandwidth_fits : c.bandwidth_capacity_mbps < 256 ^ 8

pub record IsPeer (p : PeerAnnouncement) : Type 0 where
  pub id_size : length p.node_id ≡ 32
  pub key_size : length p.public_key ≡ 32
  pub caps : IsCapabilities p.capabilities
  pub timestamp_fits : p.timestamp < 256 ^ 8
  pub signature_size : length p.signature ≡ 64

pub record IsContent (c : ContentAnnouncement) : Type 0 where
  pub hash_size : length c.content_hash ≡ 32
  pub size_fits : c.content_size < 256 ^ 8
  pub host_size : length c.hosting_node ≡ 32
  pub network_size : (id : Bytes) → c.network_id ≡ some id → length id ≡ 32
  pub timestamp_fits : c.timestamp < 256 ^ 8
  pub signature_size : length c.signature ≡ 64

pub record IsUpdate (s : NetworkStateUpdate) : Type 0 where
  pub epoch_fits : s.epoch_number < 256 ^ 8
  pub node_sizes : All (λ b. length b ≡ 32) s.active_nodes
  pub nodes_fit : length s.active_nodes < 256 ^ 4
  pub difficulty_fits : s.pow_difficulty < 256 ^ 4
  pub seed_fits : length s.entropy_seed < 256 ^ 4
  pub timestamp_fits : s.timestamp < 256 ^ 8
  pub signature_sizes : All (λ b. length b ≡ 64) s.signatures
  pub signatures_fit : length s.signatures < 256 ^ 4

length-capabilities : (c : NodeCapabilities) → length (capabilities_to_bytes c) ≡ 17
unfolding capabilities_to_bytes
length-capabilities c = simp (length-append, length-le_bytes)

flags_back :
    (a b c : Bool)
    → let n = (if a then 1 else 0) + (if b then 2 else 0) + (if c then 4 else 0) in
      ((n % 2 == 1) ≡ a) × (((n / 2) % 2 == 1) ≡ b) × (((n / 4) % 2 == 1) ≡ c) × (n < 256)
flags_back a b c = ground arith

capabilities_back :
    (c : NodeCapabilities)
    → IsCapabilities c
    → capabilities_from_bytes (capabilities_to_bytes c) ≡ accepted c
unfolding capabilities_from_bytes
capabilities_back c v =
    let (host, route, store, byte) =
      flags_back c.can_host_things c.can_route_content c.can_provide_storage in
    rw (le→ltb (length (capabilities_to_bytes c)) 17 (omega (arith, length-capabilities c))) (
      unfold capabilities_to_bytes in
      rw (
        raw_scalar-append 1 (flag_byte c) _ byte,
        raw_scalar-append 8 c.storage_capacity_bytes _ v.storage_fits,
        raw_scalar_end 8 c.bandwidth_capacity_mbps v.bandwidth_fits,
        host,
        route,
        store,
      ))

-- A peer announcement whose fields have the widths of their C++ types is read back as it was written.
pub peer_from_bytes-peer_to_bytes :
    (p : PeerAnnouncement) → IsPeer p → peer_from_bytes (peer_to_bytes p) ≡ accepted p
unfolding peer_from_bytes
peer_from_bytes-peer_to_bytes p v =
    let size : length (peer_to_bytes p) ≡ 153 =
      unfold peer_to_bytes in
      simp (length-append, length-le_bytes, v.id_size, v.key_size, v.signature_size) in
    rw (le→ltb (length (peer_to_bytes p)) 153 (omega arith)) (
      unfold peer_to_bytes in
      rw (
        raw_blob-append 32 p.node_id _ v.id_size,
        raw_blob-append 32 p.public_key _ v.key_size,
        raw_blob-append 17 (capabilities_to_bytes p.capabilities) _
            (length-capabilities p.capabilities),
        capabilities_back p.capabilities v.caps,
        raw_scalar-append 8 p.timestamp _ v.timestamp_fits,
        raw_blob_end 64 p.signature v.signature_size,
      ))

-- The two parts of the field of a network id: its flag, and what follows.
abbrev flag_of : Option Bytes → ℕ
flag_of none = 0
flag_of (some id) = 1

abbrev id_of : Option Bytes → Bytes
id_of none = []
id_of (some id) = id

field_append :
    (network : Option Bytes) (rest : Bytes)
    → network_field network ++ rest ≡ le_bytes 1 (flag_of network) ++ (id_of network ++ rest)
field_append none rest = refl
field_append (some id) rest = append_assoc (le_bytes 1 1) id rest

flag_fits : (network : Option Bytes) → flag_of network < 256 ^ 1
flag_fits none = omega arith
flag_fits (some id) = omega arith

read_network_back :
    (network : Option Bytes) (rest : Bytes)
    → ((id : Bytes) → network ≡ some id → length id ≡ 32)
    → read_network (flag_of network) (id_of network ++ rest) ≡ accepted (network, rest)
unfolding read_network
read_network_back none rest size = refl
read_network_back (some id) rest size = rw (checked_blob-append 32 id rest (size id refl))

field_size : (network : Option Bytes) → 1 ≤ length (network_field network)
field_size none = simp length-le_bytes (omega arith)
field_size (some id) = simp (length-append, length-le_bytes) (omega arith)

-- A content announcement whose fields have the widths of their C++ types, with a network id or without
-- one, is read back as it was written.
pub content_from_bytes-content_to_bytes :
    (c : ContentAnnouncement) → IsContent c → content_from_bytes (content_to_bytes c) ≡ accepted c
unfolding content_from_bytes
content_from_bytes-content_to_bytes c v =
    let size : length (content_to_bytes c) ≡ 144 + length (network_field c.network_id) =
      unfold content_to_bytes in
      simp (length-append, length-le_bytes, v.hash_size, v.host_size, v.signature_size)
        (omega arith) in
    rw (le→ltb (length (content_to_bytes c)) 145 (omega (arith, field_size c.network_id))) (
      unfold content_to_bytes in
      rw (
        raw_blob-append 32 c.content_hash _ v.hash_size,
        raw_scalar-append 8 c.content_size _ v.size_fits,
        raw_blob-append 32 c.hosting_node _ v.host_size,
        field_append c.network_id _,
        raw_scalar-append 1 (flag_of c.network_id) _ (flag_fits c.network_id),
        read_network_back c.network_id _ v.network_size,
        raw_scalar-append 8 c.timestamp _ v.timestamp_fits,
        raw_blob_end 64 c.signature v.signature_size,
      ))

read_entries-append :
    (size : ℕ) (bs : List Bytes) (rest : Bytes)
    → All (λ b. length b ≡ size) bs
    → read_entries size (length bs) (joined bs ++ rest) ≡ accepted (bs, rest)
unfolding read_entries joined
read_entries-append size [] rest h = refl
read_entries-append size (b ∷ bs) rest (hb, h) = rw (
  append_assoc b (joined bs) rest,
  checked_blob-append size b (joined bs ++ rest) hb,
  read_entries-append size bs rest h,
)

read_entries_end :
    (size : ℕ) (bs : List Bytes)
    → All (λ b. length b ≡ size) bs
    → read_entries size (length bs) (joined bs) ≡ accepted (bs, [])
read_entries_end size bs h =
    subst (λ x. read_entries size (length bs) x ≡ accepted (bs, [])) (append-nil (joined bs))
      (read_entries-append size bs [] h)

-- A network state update whose fields have the widths of their C++ types is read back as it was written.
pub state_from_bytes-state_to_bytes :
    (s : NetworkStateUpdate) → IsUpdate s → state_from_bytes (state_to_bytes s) ≡ accepted s
unfolding state_from_bytes
state_from_bytes-state_to_bytes s v =
    let big : 32 ≤ length (state_to_bytes s) =
      unfold state_to_bytes in simp (length-append, length-le_bytes) (omega arith) in
    rw (le→ltb (length (state_to_bytes s)) 32 big) (
      unfold state_to_bytes in
      rw (
        raw_scalar-append 8 s.epoch_number _ v.epoch_fits,
        raw_scalar-append 4 (length s.active_nodes) _ v.nodes_fit,
        read_entries-append 32 s.active_nodes _ v.node_sizes,
        raw_scalar-append 4 s.pow_difficulty _ v.difficulty_fits,
        raw_scalar-append 4 (length s.entropy_seed) _ v.seed_fits,
        checked_blob-append (length s.entropy_seed) s.entropy_seed _ refl,
        raw_scalar-append 8 s.timestamp _ v.timestamp_fits,
        raw_scalar-append 4 (length s.signatures) _ v.signatures_fit,
        read_entries_end 64 s.signatures v.signature_sizes,
      ))
