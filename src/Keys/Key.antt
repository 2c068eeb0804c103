-- ===== src/Keys/Key.antt =====
-- Key of src/core/keys/key.hpp, and its methods in key.cpp.
use cashew.Prelude.{
  ℕ, ◌+◌, ◌-◌, ◌*◌, ◌%◌, ◌^◌, Bool, Bytes, Option, some, ◌++◌, length, leb, if◌then◌else◌, ◌>>=◌,
}
use cashew.Crypto.{Crypto, ascii, bytes_to_hex, decimal}
use cashew.Codec.{le_bytes, read_scalar, read_blob}
use cashew.Keys.KeyType.{KeyType, key_type_to_string}

pub record Key : Type 0 where
  pub type : KeyType
  pub owner : Bytes
  pub issued : ℕ
  pub last_used : ℕ
  pub source : Bytes
  pub nonce : ℕ

-- Key::DECAY_PERIOD_SECONDS, 30 days
abbrev pub decay_period : ℕ
decay_period = 86400 * 30

-- Key::create; `nonce` is what fetch_add returned from the process-wide counter.
unfoldable pub create : KeyType → Bytes → ℕ → Bytes → ℕ → Key
create type owner issued source nonce = record {
  type = type;
  owner = owner;
  issued = issued;
  last_used = issued;
  source = source;
  nonce = nonce;
}

unfoldable mark_used : ℕ → Key → Key
mark_used current_time k = record k { last_used = current_time }

-- a - b on uint64_t
abbrev pub sub_64 : ℕ → ℕ → ℕ
sub_64 a b = (a + 2 ^ 64 - b) % 2 ^ 64

unfoldable pub has_decayed : ℕ → Key → Bool
has_decayed current_time k = leb decay_period (sub_64 current_time k.last_used)

unfoldable pub time_until_decay : ℕ → Key → ℕ
unfolding has_decayed
time_until_decay current_time k =
    if has_decayed current_time k then 0 else sub_64 decay_period (sub_64 current_time k.last_used)

unfoldable pub serialize : Key → Bytes
serialize k =
    le_bytes 1 k.type
    ++ (k.owner
        ++ (le_bytes 8 k.issued
            ++ (le_bytes 8 k.last_used
                ++ (le_bytes 4 (length k.source) ++ (k.source ++ le_bytes 8 k.nonce)))))

-- Bytes behind the key are ignored.
unfoldable pub deserialize : Bytes → Option Key
deserialize data_ = do
  (type, a₁) ← read_scalar 1 data_
  (owner, a₂) ← read_blob 32 a₁
  (issued, a₃) ← read_scalar 8 a₂
  (last_used, a₄) ← read_scalar 8 a₃
  (source_len, a₅) ← read_scalar 4 a₄
  (source, a₆) ← read_blob source_len a₅
  (nonce, a₇) ← read_scalar 8 a₆
  some (record {
    type = type;
    owner = owner;
    issued = issued;
    last_used = last_used;
    source = source;
    nonce = nonce;
  })

-- Key::get_key_id, over the BLAKE3 hash
unfoldable pub key_id : Crypto → Key → Bytes
key_id crypto k = bytes_to_hex (
    crypto.hash (
      key_type_to_string k.type
      ++ (ascii "_"
          ++ (bytes_to_hex k.owner
              ++ (ascii "_" ++ (decimal k.issued ++ (ascii "_" ++ decimal k.nonce)))))))
