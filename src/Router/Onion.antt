-- ===== src/Router/Onion.antt =====
-- The onion layers of src/network/router.cpp: xor_with_keystream, Router::create_onion_layers and
-- Router::decrypt_onion_layer.
pub mod Peeling
use Prim.Native.Nat.{bit_xor}
use cashew.Prelude.{
  ℕ, zero, suc, ◌+◌, ◌%◌, ◌^◌, Bytes, bytes_eq, bytes_ordered, Option, none, some, List, [], ◌∷◌,
  ◌++◌, length, take, drop, replicate, not, ltb, if◌then◌else◌,
}
use cashew.Crypto.{Crypto, ascii}
use cashew.Codec.{le_bytes}

-- the inner loop: input and block, up to the end of either
unfoldable pub xor_block : Bytes → Bytes → Bytes
xor_block [] block = []
xor_block (x ∷ xs) [] = []
xor_block (x ∷ xs) (b ∷ bs) = bit_xor x b ∷ xor_block xs bs

-- the outer loop, one block for each round of fuel; the counter is a uint32_t
unfoldable pub xor_blocks : Crypto → Bytes → ℕ → ℕ → Bytes → Bytes
unfolding xor_block
xor_blocks crypto key_seed zero counter input = []
xor_blocks crypto key_seed (suc fuel) counter [] = []
xor_blocks crypto key_seed (suc fuel) counter (x ∷ xs) =
    let block = crypto.hash (key_seed ++ le_bytes 4 counter) in
    xor_block (x ∷ xs) block
    ++ xor_blocks crypto key_seed fuel ((counter + 1) % 2 ^ 32) (drop (length block) (x ∷ xs))

-- A digest is not empty, so that a round for each byte is enough.
unfoldable pub xor_with_keystream : Crypto → Bytes → Bytes → Bytes
unfolding xor_blocks
xor_with_keystream crypto input key_seed = xor_blocks crypto key_seed (length input) 0 input

-- "ON1"
abbrev pub magic : Bytes
magic = 79 ∷ 78 ∷ 49 ∷ []

-- NodeID{}
abbrev pub no_node : Bytes
no_node = replicate 32 0

abbrev pub next_on : List Bytes → Bytes
next_on [] = no_node
next_on (hop ∷ hops) = hop

-- the loop of create_onion_layers, which goes from the last hop to the first
unfoldable pub wrap : Crypto → List Bytes → Bytes → Bytes
unfolding xor_with_keystream
wrap crypto [] payload = payload
wrap crypto (hop ∷ hops) payload =
    magic ++ xor_with_keystream crypto (next_on hops ++ wrap crypto hops payload) hop

unfoldable pub create_onion_layers : Crypto → List Bytes → Bytes → List Bytes
unfolding wrap
create_onion_layers crypto [] payload = []
create_onion_layers crypto (hop ∷ hops) payload = wrap crypto (hop ∷ hops) payload ∷ []

-- decrypt_onion_layer of the node `local`; 3 + 32
unfoldable pub decrypt_onion_layer : Crypto → Bytes → Bytes → Option Bytes
unfolding xor_with_keystream
decrypt_onion_layer crypto local layer =
    if ltb (length layer) 35
    then none
    else if not (bytes_eq (take 3 layer) magic)
    then none
    else let plain = xor_with_keystream crypto (drop 3 layer) local in
      if ltb (length plain) 32 then none else some (drop 32 plain)
