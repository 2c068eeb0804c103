-- ===== src/Keys/RoundTrip.antt =====
-- What the key codecs write is read back, and what they read is what was written.
use mathlib.Core.Path.{subst}
use cashew.Prelude.{◌<◌, ◌^◌, ◌≡◌, Bytes, some, ◌++◌, length, append_assoc, refl, sym, some_inj}
use cashew.Codec.{le_bytes}
use cashew.Codec.Laws.{read_blob-append, read_scalar-append, IsBytes, scalar_step, blob_step}
use cashew.Keys.Key.{Key, serialize, deserialize}
use cashew.Keys.Transfer
use cashew.Keys.Transfer.{KeyTransfer}
use cashew.Keys.Vouch
use cashew.Keys.Vouch.{KeyVouch}

-- The fields have the widths of their C++ types.
pub record IsKey (k : Key) : Type 0 where
  pub type_byte : k.type < 256 ^ 1
  pub owner_size : length k.owner ≡ 32
  pub issued_fits : k.issued < 256 ^ 8
  pub last_used_fits : k.last_used < 256 ^ 8
  pub source_fits : length k.source < 256 ^ 4
  pub nonce_fits : k.nonce < 256 ^ 8

pub record IsKeyTransfer (t : KeyTransfer) : Type 0 where
  pub key_id_fits : length t.key_id < 256 ^ 4
  pub from_size : length t.from_node ≡ 32
  pub to_size : length t.to_node ≡ 32
  pub type_byte : t.key_type < 256 ^ 1
  pub timestamp_fits : t.timestamp < 256 ^ 8
  pub reason_fits : length t.reason < 256 ^ 4
  pub signature_size : length t.signature ≡ 64

pub record IsKeyVouch (v : KeyVouch) : Type 0 where
  pub voucher_size : length v.voucher ≡ 32
  pub vouchee_size : length v.vouchee ≡ 32
  pub type_byte : v.key_type < 256 ^ 1
  pub count_fits : v.key_count < 256 ^ 4
  pub timestamp_fits : v.timestamp < 256 ^ 8
  pub statement_fits : length v.statement < 256 ^ 4
  pub signature_size : length v.signature ≡ 64

-- A key whose fields have the widths of their C++ types is read back as it was written, whatever bytes
-- follow it.
pub deserialize-serialize :
    (k : Key) (rest : Bytes) → IsKey k → deserialize (serialize k ++ rest) ≡ some k
unfolding serialize deserialize
deserialize-serialize k rest v = simp append_assoc (
    rw (
      read_scalar-append 1 k.type _ v.type_byte,
      read_blob-append 32 k.owner _ v.owner_size,
      read_scalar-append 8 k.issued _ v.issued_fits,
      read_scalar-append 8 k.last_used _ v.last_used_fits,
      read_scalar-append 4 (length k.source) _ v.source_fits,
      read_blob-append (length k.source) k.source _ refl,
      read_scalar-append 8 k.nonce _ v.nonce_fits,
    ))

-- A transfer record whose fields have the widths of their C++ types is read back as it was written,
-- whatever bytes follow it.
from_bytes-to_bytes_transfer :
    (t : KeyTransfer) (rest : Bytes)
    → IsKeyTransfer t
    → Transfer.from_bytes (Transfer.to_bytes t ++ rest) ≡ some t
unfolding Transfer.from_bytes Transfer.to_bytes
from_bytes-to_bytes_transfer t rest v = simp append_assoc (
    rw (
      read_scalar-append 4 (length t.key_id) _ v.key_id_fits,
      read_blob-append (length t.key_id) t.key_id _ refl,
      read_blob-append 32 t.from_node _ v.from_size,
      read_blob-append 32 t.to_node _ v.to_size,
      read_scalar-append 1 t.key_type _ v.type_byte,
      read_scalar-append 8 t.timestamp _ v.timestamp_fits,
      read_scalar-append 4 (length t.reason) _ v.reason_fits,
      read_blob-append (length t.reason) t.reason _ refl,
      read_blob-append 64 t.signature _ v.signature_size,
    ))

-- A vouch record whose fields have the widths of their C++ types is read back as it was written,
-- whatever bytes follow it.
from_bytes-to_bytes_vouch :
    (v : KeyVouch) (rest : Bytes)
    → IsKeyVouch v
    → Vouch.from_bytes (Vouch.to_bytes v ++ rest) ≡ some v
unfolding Vouch.from_bytes Vouch.to_bytes
from_bytes-to_bytes_vouch v rest w = simp append_assoc (
    rw (
      read_blob-append 32 v.voucher _ w.voucher_size,
      read_blob-append 32 v.vouchee _ w.vouchee_size,
      read_scalar-append 1 v.key_type _ w.type_byte,
      read_scalar-append 4 v.key_count _ w.count_fits,
      read_scalar-append 8 v.timestamp _ w.timestamp_fits,
      read_scalar-append 4 (length v.statement) _ w.statement_fits,
      read_blob-append (length v.statement) v.statement _ refl,
      read_blob-append 64 v.signature _ w.signature_size,
    ))

-- The reads of deserialize, put together again.
joined_key :
    (k : Key) (bytes a₁ a₂ a₃ a₄ a₅ a₆ a₇ : Bytes)
    → bytes ≡ le_bytes 1 k.type ++ a₁
    → a₁ ≡ k.owner ++ a₂
    → a₂ ≡ le_bytes 8 k.issued ++ a₃
    → a₃ ≡ le_bytes 8 k.last_used ++ a₄
    → a₄ ≡ le_bytes 4 (length k.source) ++ a₅
    → a₅ ≡ k.source ++ a₆
    → a₆ ≡ le_bytes 8 k.nonce ++ a₇
    → bytes ≡ serialize k ++ a₇
unfolding serialize
joined_key k bytes a₁ a₂ a₃ a₄ a₅ a₆ a₇ e₁ e₂ e₃ e₄ e₅ e₆ e₇ =
    simp append_assoc (rw (e₁, e₂, e₃, e₄, e₅, e₆, e₇))

-- Whatever string of bytes deserialize accepts, it begins with the serialization of the key that is
-- returned.
pub deserialize-prefix :
    (bytes : Bytes) (k : Key)
    → IsBytes bytes
    → deserialize bytes ≡ some k
    → (rest : Bytes) × (bytes ≡ serialize k ++ rest)
unfolding deserialize
deserialize-prefix bytes k hb h =
    let (type, a₁, e₁, h₁, g₁) = scalar_step 1 bytes _ hb h in
    let (owner, a₂, e₂, s₂, h₂, g₂) = blob_step 32 a₁ _ h₁ g₁ in
    let (issued, a₃, e₃, h₃, g₃) = scalar_step 8 a₂ _ h₂ g₂ in
    let (last_used, a₄, e₄, h₄, g₄) = scalar_step 8 a₃ _ h₃ g₃ in
    let (size, a₅, e₅, h₅, g₅) = scalar_step 4 a₄ _ h₄ g₄ in
    let (source, a₆, e₆, s₆, h₆, g₆) = blob_step size a₅ _ h₅ g₅ in
    let (nonce, a₇, e₇, h₇, g₇) = scalar_step 8 a₆ _ h₆ g₆ in
    (
      a₇,
      subst (λ x. bytes ≡ serialize x ++ a₇) (some_inj g₇)
          (joined_key _ bytes a₁ a₂ a₃ a₄ a₅ a₆ a₇ e₁ e₂ e₃ e₄
            (subst (λ n. a₄ ≡ le_bytes 4 n ++ a₅) (sym s₆) e₅) e₆ e₇),
    )

-- A key, a transfer record and a vouch record whose fields have the widths of their C++ types are read
-- back as they were written, whatever bytes follow them.
pub keys_round_trips :
    (k : Key) (t : KeyTransfer) (v : KeyVouch) (rest : Bytes)
    → IsKey k
    → IsKeyTransfer t
    → IsKeyVouch v
    → (deserialize (serialize k ++ rest) ≡ some k)
      × (Transfer.from_bytes (Transfer.to_bytes t ++ rest) ≡ some t)
      × (Vouch.from_bytes (Vouch.to_bytes v ++ rest) ≡ some v)
keys_round_trips k t v rest is_key is_transfer is_vouch = (
  deserialize-serialize k rest is_key,
  from_bytes-to_bytes_transfer t rest is_transfer,
  from_bytes-to_bytes_vouch v rest is_vouch,
)
