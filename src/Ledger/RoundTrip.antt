-- ===== src/Ledger/RoundTrip.antt =====
-- What the ledger's codecs write is read back.
use cashew.Prelude.{
  ◌+◌, ◌<◌, ◌^◌, ◌≡◌, refl, Bytes, some, ◌++◌, length, append_assoc, length-append, le→ltb, arith,
}
use cashew.Codec.Laws.{
  read_blob-append, read_scalar-append, length-le_bytes, read_blob_end, read_scalar_end,
}
use cashew.Ledger.Event.{LedgerEvent, to_bytes, from_bytes}
use cashew.Ledger.Payload.{
  KeyIssuanceData, NetworkMembershipData, ThingReplicationData, ReputationUpdateData, key_to_bytes,
  key_from_bytes, membership_to_bytes, membership_from_bytes, thing_to_bytes, thing_from_bytes,
  reputation_to_bytes, reputation_from_bytes,
}

-- The fields have the widths of their C++ types.
pub record IsEvent (e : LedgerEvent) : Type 0 where
  pub id_size : length e.event_id ≡ 32
  pub type_byte : e.event_type < 256 ^ 1
  pub source_size : length e.source_node ≡ 32
  pub timestamp_fits : e.timestamp < 256 ^ 8
  pub epoch_fits : e.epoch < 256 ^ 8
  pub previous_size : length e.previous_hash ≡ 32
  pub payload_fits : length e.payload < 256 ^ 4
  pub signature_size : length e.signature ≡ 64

length-to_bytes : (e : LedgerEvent) → IsEvent e → length (to_bytes e) ≡ 181 + length e.payload
unfolding to_bytes
length-to_bytes e v =
    simp
      (length-append, length-le_bytes, v.id_size, v.source_size, v.previous_size, v.signature_size)
      (omega arith)

-- An event whose fields have the widths of their C++ types is read back as it was written, whatever
-- bytes follow it.
pub from_bytes-to_bytes :
    (e : LedgerEvent) (rest : Bytes) → IsEvent e → from_bytes (to_bytes e ++ rest) ≡ some e
unfolding from_bytes
from_bytes-to_bytes e rest v =
    rw
      (le→ltb (length (to_bytes e ++ rest)) 181
        (omega (arith, length-append (to_bytes e) rest, length-to_bytes e v)))
      (unfold to_bytes in
        simp append_assoc (
          rw (
            read_blob-append 32 e.event_id _ v.id_size,
            read_scalar-append 1 e.event_type _ v.type_byte,
            read_blob-append 32 e.source_node _ v.source_size,
            read_scalar-append 8 e.timestamp _ v.timestamp_fits,
            read_scalar-append 8 e.epoch _ v.epoch_fits,
            read_blob-append 32 e.previous_hash _ v.previous_size,
            read_scalar-append 4 (length e.payload) _ v.payload_fits,
            read_blob-append (length e.payload) e.payload _ refl,
            read_blob-append 64 e.signature _ v.signature_size,
          )))

pub record IsKeyIssuance (d : KeyIssuanceData) : Type 0 where
  pub type_byte : d.key_type < 256 ^ 1
  pub count_fits : d.count < 256 ^ 4
  pub method_byte : d.method < 256 ^ 1
  pub proof_size : length d.proof ≡ 32

pub record IsMembership (d : NetworkMembershipData) : Type 0 where
  pub network_size : length d.network_id ≡ 32
  pub member_size : length d.member_node ≡ 32
  pub role_fits : length d.role < 256 ^ 2

pub record IsReplication (d : ThingReplicationData) : Type 0 where
  pub content_size : length d.content_hash ≡ 32
  pub network_size : length d.network_id ≡ 32
  pub host_size : length d.hosting_node ≡ 32
  pub size_fits : d.size_bytes < 256 ^ 8

pub record IsReputation (d : ReputationUpdateData) : Type 0 where
  pub subject_size : length d.subject_node ≡ 32
  pub delta_word : d.score_delta < 256 ^ 4
  pub reason_fits : length d.reason < 256 ^ 2
  pub evidence_size : length d.evidence ≡ 32

-- The payload of a key event, its fields of the widths of their C++ types, is read back as it was
-- written.
pub key_from_bytes-key_to_bytes :
    (d : KeyIssuanceData) → IsKeyIssuance d → key_from_bytes (key_to_bytes d) ≡ some d
unfolding key_from_bytes
key_from_bytes-key_to_bytes d v =
    let size : length (key_to_bytes d) ≡ 38 =
      unfold key_to_bytes in simp (length-append, length-le_bytes, v.proof_size) (omega arith) in
    rw (le→ltb (length (key_to_bytes d)) 38 (omega arith)) (
      unfold key_to_bytes in
      rw (
        read_scalar-append 1 d.key_type _ v.type_byte,
        read_scalar-append 4 d.count _ v.count_fits,
        read_scalar-append 1 d.method _ v.method_byte,
        read_blob_end 32 d.proof v.proof_size,
      ))

-- The payload of a membership event, its ids of 32 bytes and its role shorter than 2^16 bytes, is read
-- back as it was written.
membership_from_bytes-membership_to_bytes :
    (d : NetworkMembershipData)
    → IsMembership d
    → membership_from_bytes (membership_to_bytes d) ≡ some d
unfolding membership_from_bytes
membership_from_bytes-membership_to_bytes d v =
    let size : length (membership_to_bytes d) ≡ 66 + length d.role =
      unfold membership_to_bytes in
      simp (length-append, length-le_bytes, v.network_size, v.member_size) (omega arith) in
    rw (le→ltb (length (membership_to_bytes d)) 66 (omega arith)) (
      unfold membership_to_bytes in
      rw (
        read_blob-append 32 d.network_id _ v.network_size,
        read_blob-append 32 d.member_node _ v.member_size,
        read_scalar-append 2 (length d.role) _ v.role_fits,
        read_blob_end (length d.role) d.role refl,
      ))

-- The payload of a replication event is read back.
thing_from_bytes-thing_to_bytes :
    (d : ThingReplicationData) → IsReplication d → thing_from_bytes (thing_to_bytes d) ≡ some d
unfolding thing_from_bytes
thing_from_bytes-thing_to_bytes d v =
    let size : length (thing_to_bytes d) ≡ 104 =
      unfold thing_to_bytes in
      simp (length-append, length-le_bytes, v.content_size, v.network_size, v.host_size)
        (omega arith) in
    rw (le→ltb (length (thing_to_bytes d)) 104 (omega arith)) (
      unfold thing_to_bytes in
      rw (
        read_blob-append 32 d.content_hash _ v.content_size,
        read_blob-append 32 d.network_id _ v.network_size,
        read_blob-append 32 d.hosting_node _ v.host_size,
        read_scalar_end 8 d.size_bytes v.size_fits,
      ))

-- The payload of a reputation event, its fields of the widths of their C++ types and its reason
-- shorter than 2^16 bytes, is read back as it was written.
reputation_from_bytes-reputation_to_bytes :
    (d : ReputationUpdateData)
    → IsReputation d
    → reputation_from_bytes (reputation_to_bytes d) ≡ some d
unfolding reputation_from_bytes
reputation_from_bytes-reputation_to_bytes d v =
    let size : length (reputation_to_bytes d) ≡ 70 + length d.reason =
      unfold reputation_to_bytes in
      simp (length-append, length-le_bytes, v.subject_size, v.evidence_size) (omega arith) in
    rw (le→ltb (length (reputation_to_bytes d)) 70 (omega arith)) (
      unfold reputation_to_bytes in
      rw (
        read_blob-append 32 d.subject_node _ v.subject_size,
        read_scalar-append 4 d.score_delta _ v.delta_word,
        read_scalar-append 2 (length d.reason) _ v.reason_fits,
        read_blob-append (length d.reason) d.reason _ refl,
        read_blob_end 32 d.evidence v.evidence_size,
      ))

-- An event, whatever bytes follow it, and the payloads of key, membership and reputation events are read
-- back as they were written, if their fields have the widths of their C++ types and a role and a reason
-- are shorter than 2^16 bytes.
pub ledger_round_trips :
    (e : LedgerEvent) (rest : Bytes) (k : KeyIssuanceData) (m : NetworkMembershipData)
    (u : ReputationUpdateData)
    → IsEvent e
    → IsKeyIssuance k
    → IsMembership m
    → IsReputation u
    → (from_bytes (to_bytes e ++ rest) ≡ some e)
      × (key_from_bytes (key_to_bytes k) ≡ some k)
      × (membership_from_bytes (membership_to_bytes m) ≡ some m)
      × (reputation_from_bytes (reputation_to_bytes u) ≡ some u)
ledger_round_trips e rest k m u is_event is_key is_member is_update = (
  from_bytes-to_bytes e rest is_event,
  key_from_bytes-key_to_bytes k is_key,
  membership_from_bytes-membership_to_bytes m is_member,
  reputation_from_bytes-reputation_to_bytes u is_update,
)
