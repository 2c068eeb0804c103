-- ===== src/Keys/Transfer.antt =====
-- KeyTransfer of src/core/keys/key.hpp, and its methods in key.cpp.
use cashew.Prelude.{ℕ, Bool, Bytes, Option, some, ◌++◌, length, ◌>>=◌}
use cashew.Crypto.{Crypto}
use cashew.Codec.{le_bytes, read_scalar, read_blob}
use cashew.Keys.KeyType.{KeyType}

pub record KeyTransfer : Type 0 where
  pub key_id : Bytes
  pub from_node : Bytes
  pub to_node : Bytes
  pub key_type : KeyType
  pub timestamp : ℕ
  pub reason : Bytes
  pub signature : Bytes

unfoldable pub to_bytes : KeyTransfer → Bytes
to_bytes t =
    le_bytes 4 (length t.key_id)
    ++ (t.key_id
        ++ (t.from_node
            ++ (t.to_node
                ++ (le_bytes 1 t.key_type
                    ++ (le_bytes 8 t.timestamp
                        ++ (le_bytes 4 (length t.reason) ++ (t.reason ++ t.signature)))))))

unfoldable pub from_bytes : Bytes → Option KeyTransfer
from_bytes data_ = do
  (key_id_len, a₁) ← read_scalar 4 data_
  (key_id, a₂) ← read_blob key_id_len a₁
  (from_node, a₃) ← read_blob 32 a₂
  (to_node, a₄) ← read_blob 32 a₃
  (key_type, a₅) ← read_scalar 1 a₄
  (timestamp, a₆) ← read_scalar 8 a₅
  (reason_len, a₇) ← read_scalar 4 a₆
  (reason, a₈) ← read_blob reason_len a₇
  (signature, a₉) ← read_blob 64 a₈
  some (record {
    key_id = key_id;
    from_node = from_node;
    to_node = to_node;
    key_type = key_type;
    timestamp = timestamp;
    reason = reason;
    signature = signature;
  })

-- the message that verify_signature rebuilds
unfoldable pub signed_message : KeyTransfer → Bytes
signed_message t =
    le_bytes 4 (length t.key_id)
    ++ (t.key_id
        ++ (t.from_node
            ++ (t.to_node
                ++ (le_bytes 1 t.key_type
                    ++ (le_bytes 8 t.timestamp ++ (le_bytes 4 (length t.reason) ++ t.reason))))))

unfoldable pub verify_signature : Crypto → KeyTransfer → Bytes → Bool
unfolding signed_message
verify_signature crypto t from_public_key =
    crypto.verify (signed_message t) t.signature from_public_key
