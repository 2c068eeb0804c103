-- ===== src/Router/Node/Layers.antt =====
-- Requests in onion layers, as the nodes of a route handle them.
use cashew.Prelude.{
  ℕ, suc, ◌<◌, ◌≡◌, refl, false, Bytes, some, List, [], ◌∷◌, All, length, take, ◌==◌, >>=-eq-some,
  arith,
}
use cashew.Crypto.{Crypto}
use cashew.Router.Table.{Floats}
use cashew.Router.Request.{ContentRequest, request_to_bytes, request_from_bytes}
use cashew.Router.Request.Codecs.{IsRequest, request_from_bytes-request_to_bytes}
use cashew.Router.Request.Sizes.{inner_hash}
use cashew.Router.Onion.{magic, wrap, create_onion_layers, decrypt_onion_layer}
use cashew.Router.Onion.Peeling.{IsByte, IsRoute, decrypt-wrap}
use cashew.Router.State.{Router, next}
use cashew.Router.Node.{as_option, first_layer, peeled, handle_content_request}
use cashew.Router.Node.Forwarding.{as_option_accepted}

module _ (crypto : Crypto)
    (digest : (m : Bytes) → (length (crypto.hash m) ≡ 32) × All IsByte (crypto.hash m)) where
  -- If digests are 32 bytes, then a request with hops left, whose layer was made for the one hop
  -- that handles it, is handled as the request inside the layer, and counted as one more request
  -- received. The fields of the request inside have the widths of their C++ types.
  pub onion_one_hop :
      (fl : Floats) (now : ℕ) (blank : Bytes) (fuel : ℕ) (q inner : ContentRequest) (r : Router)
      → IsRequest inner
      → All IsByte (request_to_bytes inner)
      → q.onion_layers ≡ create_onion_layers crypto (r.local_node_id ∷ []) (request_to_bytes inner)
      → 0 < q.hop_limit
      → handle_content_request crypto fl now blank (suc fuel) q r
        ≡ handle_content_request crypto fl now blank fuel inner
            (record r { requests_received = next r.requests_received })
  unfolding handle_content_request create_onion_layers peeled
  onion_one_hop fl now blank fuel q inner r v clean eq left =
      let spent : (q.hop_limit == 0) ≡ false = ground arith in
      let opened : decrypt_onion_layer crypto r.local_node_id
            (wrap crypto (r.local_node_id ∷ []) (request_to_bytes inner))
          ≡ some (request_to_bytes inner) =
        unfold wrap in
        decrypt-wrap crypto digest r.local_node_id [] (request_to_bytes inner) tt clean in
      let outer : first_layer q
          ≡ some (wrap crypto (r.local_node_id ∷ []) (request_to_bytes inner)) =
        unfold first_layer in rw eq refl in
      rw (spent, outer, handle_content_request)
        (rw (opened, request_from_bytes-request_to_bytes inner v) refl)

  -- If digests are 32 bytes, then on a route of two hops or more, whose ids are 32 bytes, the first
  -- hop takes the layer of the second for a request: if the encrypted bytes parse, the request is
  -- one for a content whose hash begins with "ON1".
  pub onion_misread :
      (next_hop : Bytes) (hops : List Bytes) (payload layer : Bytes) (q : ContentRequest)
      (r : Router)
      → IsRoute (next_hop ∷ hops)
      → All IsByte payload
      → create_onion_layers crypto (r.local_node_id ∷ next_hop ∷ hops) payload ≡ layer ∷ []
      → peeled crypto layer r ≡ some q
      → take 3 q.content_hash ≡ magic
  unfolding peeled create_onion_layers
  onion_misread next_hop hops payload layer q r v clean made parsed =
      let route = r.local_node_id ∷ next_hop ∷ hops in
      let same : wrap crypto route payload ≡ layer = cc in
      let opened = decrypt-wrap crypto digest r.local_node_id (next_hop ∷ hops) payload v clean in
      let (plain, found, read) =
        >>=-eq-some (decrypt_onion_layer crypto r.local_node_id layer)
          (λ plain. as_option (request_from_bytes plain)) parsed in
      let whole : wrap crypto (next_hop ∷ hops) payload ≡ plain = cc in
      let hash = inner_hash plain q (as_option_accepted (request_from_bytes plain) read) in
      rw (hash, ← whole) (unfold wrap in refl)
