-- ===== src/Router/Request/Codecs.antt =====
-- The codecs of requests and responses: round trips, and that no bytes make a parser leave its buffer.
use cashew.Prelude.{
  ℕ, zero, suc, ◌+◌, ◌^◌, ◌<◌, ◌≤◌, ◌≡◌, ◌≢◌, refl, Bytes, List, [], ◌∷◌, ◌++◌, All, length,
  length-append, le→ltb, ltb, arith, Bool-cases, inl, inr,
}
use cashew.Codec.Laws.{length-le_bytes}
use cashew.Codec.Parse.{
  accepted, overrun, raw_blob-append, raw_scalar-append, checked_blob-append, checked_scalar-append,
  raw_blob_end, raw_blob_safe, raw_scalar_safe, checked_blob_safe, checked_scalar_safe, >>=_safe,
}
use cashew.Router.Request.{
  ContentRequest, ContentResponse, layers_to_bytes, read_layers, request_to_bytes,
  request_from_bytes, response_to_bytes, response_from_bytes,
}

-- The fields have the widths of their C++ types.
pub record IsRequest (q : ContentRequest) : Type 0 where
  pub hash_size : length q.content_hash ≡ 32
  pub requester_size : length q.requester_id ≡ 32
  pub id_size : length q.request_id ≡ 32
  pub hop_byte : q.hop_limit < 256 ^ 1
  pub timestamp_fits : q.timestamp < 256 ^ 8
  pub layers_fit : length q.onion_layers < 256 ^ 2
  pub layer_sizes : All (λ b. length b < 256 ^ 4) q.onion_layers

pub record IsResponse (s : ContentResponse) : Type 0 where
  pub hash_size : length s.content_hash ≡ 32
  pub host_size : length s.hosting_node ≡ 32
  pub id_size : length s.request_id ≡ 32
  pub hop_byte : s.hop_count < 256 ^ 1
  pub content_fits : length s.content_data < 256 ^ 4
  pub signature_size : length s.signature ≡ 64

read_layers-layers_to_bytes :
    (layers : List Bytes)
    → All (λ b. length b < 256 ^ 4) layers
    → read_layers (length layers) (layers_to_bytes layers) ≡ accepted layers
unfolding read_layers layers_to_bytes
read_layers-layers_to_bytes [] h = refl
read_layers-layers_to_bytes (layer ∷ layers) (hl, h) = rw (
  checked_scalar-append 4 (length layer) (layer ++ layers_to_bytes layers) hl,
  checked_blob-append (length layer) layer (layers_to_bytes layers) refl,
  read_layers-layers_to_bytes layers h,
)

-- A content request whose fields have the widths of their C++ types, with at most 65,535 onion layers, is
-- read back as it was written.
pub request_from_bytes-request_to_bytes :
    (q : ContentRequest) → IsRequest q → request_from_bytes (request_to_bytes q) ≡ accepted q
unfolding request_from_bytes
request_from_bytes-request_to_bytes q v =
    let big : 107 ≤ length (request_to_bytes q) =
      unfold request_to_bytes in
      simp (length-append, length-le_bytes, v.hash_size, v.requester_size, v.id_size)
        (omega arith) in
    rw (le→ltb (length (request_to_bytes q)) 107 big) (
      unfold request_to_bytes in
      rw (
        raw_blob-append 32 q.content_hash _ v.hash_size,
        raw_blob-append 32 q.requester_id _ v.requester_size,
        raw_blob-append 32 q.request_id _ v.id_size,
        raw_scalar-append 1 q.hop_limit _ v.hop_byte,
        raw_scalar-append 8 q.timestamp _ v.timestamp_fits,
        raw_scalar-append 2 (length q.onion_layers) _ v.layers_fit,
        read_layers-layers_to_bytes q.onion_layers v.layer_sizes,
      ))

-- A content response whose fields have the widths of their C++ types is read back as it was written.
response_from_bytes-response_to_bytes :
    (s : ContentResponse) → IsResponse s → response_from_bytes (response_to_bytes s) ≡ accepted s
unfolding response_from_bytes
response_from_bytes-response_to_bytes s v =
    let big : 165 ≤ length (response_to_bytes s) =
      unfold response_to_bytes in
      simp (length-append, length-le_bytes, v.hash_size, v.host_size, v.id_size, v.signature_size)
        (omega arith) in
    let body : length s.content_data + 64 ≤ length (s.content_data ++ s.signature) =
      omega (arith, length-append s.content_data s.signature, v.signature_size) in
    rw (le→ltb (length (response_to_bytes s)) 165 big) (
      unfold response_to_bytes in
      rw (
        raw_blob-append 32 s.content_hash _ v.hash_size,
        raw_blob-append 32 s.hosting_node _ v.host_size,
        raw_blob-append 32 s.request_id _ v.id_size,
        raw_scalar-append 1 s.hop_count _ v.hop_byte,
        raw_scalar-append 4 (length s.content_data) _ v.content_fits,
        le→ltb (length (s.content_data ++ s.signature)) (length s.content_data + 64) body,
        raw_blob-append (length s.content_data) s.content_data _ refl,
        raw_blob_end 64 s.signature v.signature_size,
      ))

read_layers_safe : (count : ℕ) (ahead : Bytes) → read_layers count ahead ≢ overrun
unfolding read_layers
read_layers_safe zero ahead = λ e. cc
read_layers_safe (suc count) ahead = checked_scalar_safe 4 ahead _ λ size a₁ s₁.
    checked_blob_safe size a₁ _
      λ layer a₂ s₂. >>=_safe (read_layers count a₂) _ (read_layers_safe count a₂) λ layers e. cc

request_safe : (bytes : Bytes) → request_from_bytes bytes ≢ overrun
unfolding request_from_bytes
request_safe bytes = elim (Bool-cases (ltb (length bytes) 107)) [
  | inl short ↦ rw short (λ e. cc)
  | inr long ↦
      let big : 107 ≤ length bytes = ground (arith, long) in
      rw long (
        raw_blob_safe 32 bytes _ (omega arith) λ hash a₁ s₁.
          raw_blob_safe 32 a₁ _ (omega arith) λ requester a₂ s₂.
            raw_blob_safe 32 a₂ _ (omega arith) λ id a₃ s₃.
              raw_scalar_safe 1 a₃ _ (omega arith) λ hops a₄ s₄.
                raw_scalar_safe 8 a₄ _ (omega arith) λ time a₅ s₅.
                  raw_scalar_safe 2 a₅ _ (omega arith) λ count a₆ s₆.
                    >>=_safe (read_layers count a₆) _ (read_layers_safe count a₆) λ layers e. cc)
]

response_safe : (bytes : Bytes) → response_from_bytes bytes ≢ overrun
unfolding response_from_bytes
response_safe bytes = elim (Bool-cases (ltb (length bytes) 165)) [
  | inl short ↦ rw short (λ e. cc)
  | inr long ↦
      let big : 165 ≤ length bytes = ground (arith, long) in
      rw long (
        raw_blob_safe 32 bytes _ (omega arith) λ hash a₁ s₁.
          raw_blob_safe 32 a₁ _ (omega arith) λ host a₂ s₂.
            raw_blob_safe 32 a₂ _ (omega arith) λ id a₃ s₃.
              raw_scalar_safe 1 a₃ _ (omega arith) λ hops a₄ s₄.
                raw_scalar_safe 4 a₄ _ (omega arith) λ size a₅ s₅.
                  elim (Bool-cases (ltb (length a₅) (size + 64))) [
                    | inl small ↦ rw small (λ e. cc)
                    | inr fits ↦
                        let room : size + 64 ≤ length a₅ = ground (arith, fits) in
                        rw fits (
                          raw_blob_safe size a₅ _ (omega arith) λ content a₆ s₆.
                            raw_blob_safe 64 a₆ _ (omega arith) λ signature a₇ s₇ e. cc)
                  ])
]

-- On any bytes, ContentRequest::from_bytes and ContentResponse::from_bytes read inside their buffer: they
-- accept or refuse, whatever counts and sizes the bytes announce.
pub route_parsers_safe :
    (bytes : Bytes) → (request_from_bytes bytes ≢ overrun) × (response_from_bytes bytes ≢ overrun)
route_parsers_safe bytes = (request_safe bytes, response_safe bytes)

-- A content request and a content response whose fields have the widths of their C++ types are read back
-- as they were written.
pub route_round_trips :
    (q : ContentRequest) (s : ContentResponse)
    → IsRequest q
    → IsResponse s
    → (request_from_bytes (request_to_bytes q) ≡ accepted q)
      × (response_from_bytes (response_to_bytes s) ≡ accepted s)
route_round_trips q s is_request is_response = (
  request_from_bytes-request_to_bytes q is_request,
  response_from_bytes-response_to_bytes s is_response,
)
