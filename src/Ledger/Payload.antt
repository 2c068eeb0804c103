-- ===== src/Ledger/Payload.antt =====
-- The payloads of ledger events: KeyIssuanceData, NetworkMembershipData, ThingReplicationData and
-- ReputationUpdateData of src/core/ledger/ledger.hpp, and their codecs in ledger.cpp.
use cashew.Prelude.{ℕ, Bytes, Option, none, some, ◌++◌, length, ltb, if◌then◌else◌, ◌>>=◌}
use cashew.Codec.{le_bytes, read_scalar, read_blob}
use cashew.Keys.KeyType.{KeyType}

pub record KeyIssuanceData : Type 0 where
  pub key_type : KeyType
  pub count : ℕ
  pub method : ℕ
  pub proof : Bytes

pub record NetworkMembershipData : Type 0 where
  pub network_id : Bytes
  pub member_node : Bytes
  pub role : Bytes

pub record ThingReplicationData : Type 0 where
  pub content_hash : Bytes
  pub network_id : Bytes
  pub hosting_node : Bytes
  pub size_bytes : ℕ

-- score_delta is an int32_t, held as its 32-bit pattern
pub record ReputationUpdateData : Type 0 where
  pub subject_node : Bytes
  pub score_delta : ℕ
  pub reason : Bytes
  pub evidence : Bytes

unfoldable pub key_to_bytes : KeyIssuanceData → Bytes
key_to_bytes d = le_bytes 1 d.key_type ++ (le_bytes 4 d.count ++ (le_bytes 1 d.method ++ d.proof))

unfoldable pub key_from_bytes : Bytes → Option KeyIssuanceData
key_from_bytes bytes = if ltb (length bytes) 38 then none else do
  (key_type, a₁) ← read_scalar 1 bytes
  (count, a₂) ← read_scalar 4 a₁
  (method, a₃) ← read_scalar 1 a₂
  (proof, a₄) ← read_blob 32 a₃
  some (record { key_type = key_type; count = count; method = method; proof = proof })

unfoldable pub membership_to_bytes : NetworkMembershipData → Bytes
membership_to_bytes d = d.network_id ++ (d.member_node ++ (le_bytes 2 (length d.role) ++ d.role))

unfoldable pub membership_from_bytes : Bytes → Option NetworkMembershipData
membership_from_bytes bytes = if ltb (length bytes) 66 then none else do
  (network_id, a₁) ← read_blob 32 bytes
  (member_node, a₂) ← read_blob 32 a₁
  (role_len, a₃) ← read_scalar 2 a₂
  (role, a₄) ← read_blob role_len a₃
  some (record { network_id = network_id; member_node = member_node; role = role })

unfoldable pub thing_to_bytes : ThingReplicationData → Bytes
thing_to_bytes d = d.content_hash ++ (d.network_id ++ (d.hosting_node ++ le_bytes 8 d.size_bytes))

unfoldable pub thing_from_bytes : Bytes → Option ThingReplicationData
thing_from_bytes bytes = if ltb (length bytes) 104 then none else do
  (content_hash, a₁) ← read_blob 32 bytes
  (network_id, a₂) ← read_blob 32 a₁
  (hosting_node, a₃) ← read_blob 32 a₂
  (size_bytes, a₄) ← read_scalar 8 a₃
  some (record {
    content_hash = content_hash;
    network_id = network_id;
    hosting_node = hosting_node;
    size_bytes = size_bytes;
  })

unfoldable pub reputation_to_bytes : ReputationUpdateData → Bytes
reputation_to_bytes d =
    d.subject_node
    ++ (le_bytes 4 d.score_delta ++ (le_bytes 2 (length d.reason) ++ (d.reason ++ d.evidence)))

unfoldable pub reputation_from_bytes : Bytes → Option ReputationUpdateData
reputation_from_bytes bytes = if ltb (length bytes) 70 then none else do
  (subject_node, a₁) ← read_blob 32 bytes
  (score_delta, a₂) ← read_scalar 4 a₁
  (reason_len, a₃) ← read_scalar 2 a₂
  (reason, a₄) ← read_blob reason_len a₃
  (evidence, a₅) ← read_blob 32 a₄
  some (record {
    subject_node = subject_node;
    score_delta = score_delta;
    reason = reason;
    evidence = evidence;
  })
