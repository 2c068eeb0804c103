-- ===== src/Codec.antt =====
-- Byte readers and writers: read_scalar and read_blob of src/core/keys/key.cpp, and the loops over
-- byte positions of src/core/ledger/ledger.cpp. Numbers are little-endian, as on the supported
-- x86-64 and ARM64 targets. A reader's cursor, (data, offset), is the list of the bytes ahead.
pub mod Laws
pub mod Parse
use cashew.Prelude.{
  ℕ, zero, suc, ◌+◌, ◌*◌, ◌/◌, ◌%◌, Bytes, Option, none, some, [], ◌∷◌, length, take, drop, ltb,
  if◌then◌else◌, ◌>>=◌,
}

-- byte i is static_cast<uint8_t>(n >> (i * 8))
unfoldable pub le_bytes : ℕ → ℕ → Bytes
le_bytes zero n = []
le_bytes (suc w) n = (n % 256) ∷ le_bytes w (n / 256)

-- the OR of the bytes, shifted to their places
unfoldable pub le_value : Bytes → ℕ
le_value [] = 0
le_value (b ∷ bs) = b + 256 * le_value bs

abbrev Reader : Type 0 → Type 0
Reader A = Bytes → Option (A × Bytes)

unfoldable pub read_blob : ℕ → Reader Bytes
read_blob len ahead = if ltb (length ahead) len then none else some (take len ahead, drop len ahead)

unfoldable pub read_scalar : ℕ → Reader ℕ
read_scalar size ahead = do (b, rest) ← read_blob size ahead; some (le_value b, rest)
