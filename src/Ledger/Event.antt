-- ===== src/Ledger/Event.antt =====
-- LedgerEvent of src/core/ledger/ledger.hpp, and its methods in ledger.cpp.
use cashew.Prelude.{ℕ, Bool, Bytes, Option, none, some, ◌++◌, length, ltb, if◌then◌else◌, ◌>>=◌}
use cashew.Crypto.{Crypto}
use cashew.Codec.{le_bytes, read_scalar, read_blob}
use cashew.Ledger.EventType.{EventType}

pub record LedgerEvent : Type 0 where
  pub event_id : Bytes
  pub event_type : EventType
  pub source_node : Bytes
  pub timestamp : ℕ
  pub epoch : ℕ
  pub previous_hash : Bytes
  pub payload : Bytes
  pub signature : Bytes

unfoldable pub to_bytes : LedgerEvent → Bytes
to_bytes e =
    e.event_id
    ++ (le_bytes 1 e.event_type
        ++ (e.source_node
            ++ (le_bytes 8 e.timestamp
                ++ (le_bytes 8 e.epoch
                    ++ (e.previous_hash
                        ++ (le_bytes 4 (length e.payload) ++ (e.payload ++ e.signature)))))))

-- The reads after the first size check, up to the payload, stay inside it.
read_event : Bytes → Option LedgerEvent
read_event bytes = do
  (event_id, a₁) ← read_blob 32 bytes
  (event_type, a₂) ← read_scalar 1 a₁
  (source_node, a₃) ← read_blob 32 a₂
  (timestamp, a₄) ← read_scalar 8 a₃
  (epoch, a₅) ← read_scalar 8 a₄
  (previous_hash, a₆) ← read_blob 32 a₅
  (data_len, a₇) ← read_scalar 4 a₆
  (payload, a₈) ← read_blob data_len a₇
  (signature, a₉) ← read_blob 64 a₈
  some (record {
    event_id = event_id;
    event_type = event_type;
    source_node = source_node;
    timestamp = timestamp;
    epoch = epoch;
    previous_hash = previous_hash;
    payload = payload;
    signature = signature;
  })

-- 32 + 1 + 32 + 8 + 8 + 32 + 4 + 64
abbrev min_event_size : ℕ
min_event_size = 181

unfoldable pub from_bytes : Bytes → Option LedgerEvent
unfolding read_event
from_bytes bytes = if ltb (length bytes) min_event_size then none else read_event bytes

-- the message that verify_signature rebuilds: the payload goes in without its length
unfoldable pub signed_message : LedgerEvent → Bytes
signed_message e =
    e.event_id
    ++ (le_bytes 1 e.event_type
        ++ (e.source_node
            ++ (le_bytes 8 e.timestamp ++ (le_bytes 8 e.epoch ++ (e.previous_hash ++ e.payload)))))

unfoldable pub verify_signature : Crypto → LedgerEvent → Bytes → Bool
unfolding signed_message
verify_signature crypto e public_key = crypto.verify (signed_message e) e.signature public_key

unfoldable pub compute_hash : Crypto → LedgerEvent → Bytes
unfolding to_bytes
compute_hash crypto e = crypto.hash (to_bytes e)
