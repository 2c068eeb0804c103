-- ===== src/Router/Request.antt =====
-- ContentRequest and ContentResponse of src/network/router.hpp, and their codecs in router.cpp.
pub mod Codecs
pub mod Sizes
use cashew.Prelude.{ℕ, zero, suc, ◌+◌, Bool, Bytes, List, [], ◌∷◌, ◌++◌, length, ltb, if◌then◌else◌}
use cashew.Crypto.{Crypto}
use cashew.Codec.{le_bytes}
use cashew.Codec.Parse.{
  Parsed, accepted, refused, raw_blob, raw_scalar, checked_blob, checked_scalar, ◌>>=◌,
}

pub record ContentRequest : Type 0 where
  pub content_hash : Bytes
  pub requester_id : Bytes
  pub request_id : Bytes
  pub hop_limit : ℕ
  pub timestamp : ℕ
  pub onion_layers : List Bytes

-- MAX_HOP_LIMIT
abbrev pub max_hop_limit : ℕ
max_hop_limit = 16

-- the loop over the layers
pub layers_to_bytes : List Bytes → Bytes
layers_to_bytes [] = []
layers_to_bytes (layer ∷ layers) = le_bytes 4 (length layer) ++ (layer ++ layers_to_bytes layers)

unfoldable pub request_to_bytes : ContentRequest → Bytes
unfolding layers_to_bytes
request_to_bytes q =
    q.content_hash
    ++ (q.requester_id
        ++ (q.request_id
            ++ (le_bytes 1 q.hop_limit
                ++ (le_bytes 8 q.timestamp
                    ++ (le_bytes 2 (length q.onion_layers) ++ layers_to_bytes q.onion_layers)))))

-- the loop that reads the layers; bytes after them are ignored
unfoldable pub read_layers : ℕ → Bytes → Parsed (List Bytes)
read_layers zero ahead = accepted []
read_layers (suc count) ahead = do
  (layer_size, a₁) ← checked_scalar 4 ahead
  (layer, a₂) ← checked_blob layer_size a₁
  layers ← read_layers count a₂
  accepted (layer ∷ layers)

-- 32 + 32 + 32 + 1 + 8 + 2
unfoldable pub request_from_bytes : Bytes → Parsed ContentRequest
unfolding read_layers
request_from_bytes data_ = if ltb (length data_) 107 then refused else do
  (content_hash, a₁) ← raw_blob 32 data_
  (requester_id, a₂) ← raw_blob 32 a₁
  (request_id, a₃) ← raw_blob 32 a₂
  (hop_limit, a₄) ← raw_scalar 1 a₃
  (timestamp, a₅) ← raw_scalar 8 a₄
  (layer_count, a₆) ← raw_scalar 2 a₅
  layers ← read_layers layer_count a₆
  accepted (record {
    content_hash = content_hash;
    requester_id = requester_id;
    request_id = request_id;
    hop_limit = hop_limit;
    timestamp = timestamp;
    onion_layers = layers;
  })

unfoldable compute_id : Crypto → ContentRequest → Bytes
compute_id crypto q = crypto.hash (q.content_hash ++ (q.requester_id ++ le_bytes 8 q.timestamp))

pub record ContentResponse : Type 0 where
  pub content_hash : Bytes
  pub content_data : Bytes
  pub hosting_node : Bytes
  pub request_id : Bytes
  pub hop_count : ℕ
  pub signature : Bytes

-- content_response_signing_bytes; the size is cast to a uint32_t
signing_bytes : ContentResponse → Bytes
signing_bytes s =
    s.content_hash
    ++ (s.hosting_node
        ++ (s.request_id
            ++ (le_bytes 1 s.hop_count ++ (le_bytes 4 (length s.content_data) ++ s.content_data))))

pub response_to_bytes : ContentResponse → Bytes
response_to_bytes s =
    s.content_hash
    ++ (s.hosting_node
        ++ (s.request_id
            ++ (le_bytes 1 s.hop_count
                ++ (le_bytes 4 (length s.content_data) ++ (s.content_data ++ s.signature)))))

-- 32 + 32 + 32 + 1 + 4 + 64
pub response_from_bytes : Bytes → Parsed ContentResponse
response_from_bytes data_ = if ltb (length data_) 165 then refused else do
  (content_hash, a₁) ← raw_blob 32 data_
  (hosting_node, a₂) ← raw_blob 32 a₁
  (request_id, a₃) ← raw_blob 32 a₂
  (hop_count, a₄) ← raw_scalar 1 a₃
  (content_size, a₅) ← raw_scalar 4 a₄
  if ltb (length a₅) (content_size + 64) then refused else do
    (content_data, a₆) ← raw_blob content_size a₅
    (signature, a₇) ← raw_blob 64 a₆
    accepted (record {
      content_hash = content_hash;
      content_data = content_data;
      hosting_node = hosting_node;
      request_id = request_id;
      hop_count = hop_count;
      signature = signature;
    })

unfoldable verify_signature : Crypto → Bytes → ContentResponse → Bool
unfolding signing_bytes
verify_signature crypto key s = crypto.verify (signing_bytes s) s.signature key
