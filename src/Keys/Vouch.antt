-- ===== src/Keys/Vouch.antt =====
-- KeyVouch of src/core/keys/key.hpp, and its methods in key.cpp.
use cashew.Prelude.{ℕ, Bool, Bytes, Option, some, ◌++◌, length, ◌>>=◌}
use cashew.Crypto.{Crypto}
use cashew.Codec.{le_bytes, read_scalar, read_blob}
use cashew.Keys.KeyType.{KeyType}

pub record KeyVouch : Type 0 where
  pub voucher : Bytes
  pub vouchee : Bytes
  pub key_type : KeyType
  pub key_count : ℕ
  pub timestamp : ℕ
  pub statement : Bytes
  pub signature : Bytes

unfoldable pub to_bytes : KeyVouch → Bytes
to_bytes v =
    v.voucher
    ++ (v.vouchee
        ++ (le_bytes 1 v.key_type
            ++ (le_bytes 4 v.key_count
                ++ (le_bytes 8 v.timestamp
                    ++ (le_bytes 4 (length v.statement) ++ (v.statement ++ v.signature))))))

unfoldable pub from_bytes : Bytes → Option KeyVouch
from_bytes data_ = do
  (voucher, a₁) ← read_blob 32 data_
  (vouchee, a₂) ← read_blob 32 a₁
  (key_type, a₃) ← read_scalar 1 a₂
  (key_count, a₄) ← read_scalar 4 a₃
  (timestamp, a₅) ← read_scalar 8 a₄
  (statement_len, a₆) ← read_scalar 4 a₅
  (statement, a₇) ← read_blob statement_len a₆
  (signature, a₈) ← read_blob 64 a₇
  some (record {
    voucher = voucher;
    vouchee = vouchee;
    key_type = key_type;
    key_count = key_count;
    timestamp = timestamp;
    statement = statement;
    signature = signature;
  })

-- the message that verify_signature rebuilds
unfoldable pub signed_message : KeyVouch → Bytes
signed_message v =
    v.voucher
    ++ (v.vouchee
        ++ (le_bytes 1 v.key_type
            ++ (le_bytes 4 v.key_count
                ++ (le_bytes 8 v.timestamp ++ (le_bytes 4 (length v.statement) ++ v.statement)))))

unfoldable pub verify_signature : Crypto → KeyVouch → Bytes → Bool
unfolding signed_message
verify_signature crypto v voucher_public_key =
    crypto.verify (signed_message v) v.signature voucher_public_key
