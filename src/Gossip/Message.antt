-- ===== src/Gossip/Message.antt =====
-- GossipMessage of src/network/gossip.hpp, and its methods in gossip.cpp. A type is its byte.
pub mod Bounds
use cashew.Prelude.{ℕ, Bool, Bytes, ◌++◌, length, ltb, leb, if◌then◌else◌}
use cashew.Crypto.{Crypto}
use cashew.Codec.{le_bytes}
use cashew.Codec.Parse.{Parsed, accepted, refused, raw_blob, raw_scalar, checked_blob, ◌>>=◌}
use cashew.Keys.Key.{sub_64}

pub record GossipMessage : Type 0 where
  pub type : ℕ
  pub message_id : Bytes
  pub payload : Bytes
  pub timestamp : ℕ
  pub hop_count : ℕ

abbrev pub peer_announcement : ℕ
peer_announcement = 1

abbrev pub content_announcement : ℕ
content_announcement = 2

abbrev max_hops : ℕ
max_hops = 10

abbrev max_age_seconds : ℕ
max_age_seconds = 300

unfoldable pub to_bytes : GossipMessage → Bytes
to_bytes m =
    le_bytes 1 m.type
    ++ (m.message_id
        ++ (le_bytes 4 (length m.payload)
            ++ (m.payload ++ (le_bytes 8 m.timestamp ++ le_bytes 1 m.hop_count))))

-- 1 + 32 + 4 + 8 + 1
unfoldable pub from_bytes : Bytes → Parsed GossipMessage
from_bytes data_ = if ltb (length data_) 46 then refused else do
  (type, a₁) ← raw_scalar 1 data_
  (message_id, a₂) ← raw_blob 32 a₁
  (payload_size, a₃) ← raw_scalar 4 a₂
  (payload, a₄) ← checked_blob payload_size a₃
  (timestamp, a₅) ← raw_scalar 8 a₄
  (hop_count, a₆) ← raw_scalar 1 a₅
  accepted (record {
    type = type;
    message_id = message_id;
    payload = payload;
    timestamp = timestamp;
    hop_count = hop_count;
  })

unfoldable pub compute_id : Crypto → GossipMessage → Bytes
unfolding to_bytes
compute_id crypto m = crypto.hash (to_bytes m)

unfoldable pub is_too_old : ℕ → GossipMessage → Bool
is_too_old now m = ltb max_age_seconds (sub_64 now m.timestamp)

unfoldable pub has_exceeded_hops : GossipMessage → Bool
has_exceeded_hops m = leb max_hops m.hop_count
