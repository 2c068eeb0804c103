-- ===== src/Router/Node/Forwarding.antt =====
-- What handle_content_request does: it returns, and what it passes on or drops.
use cashew.Prelude.{
  ℕ, zero, suc, ◌+◌, ◌-◌, ◌%◌, ◌^◌, ◌<◌, ◌≤◌, ◌≡◌, refl, ap, true, false, not, ◌&&◌, Bytes,
  bytes_eq, bytes_ordered, none, some, min, List, [], ◌∷◌, ◌++◌, length, length-append, drop,
  length-drop, leb, ◌==◌, if◌then◌else◌, arith, Bool-cases, >>=-eq-some, Option-cases, inl, inr,
}
use cashew.Crypto.{Crypto}
use cashew.Codec.{le_bytes}
use cashew.Codec.Parse.{Parsed, accepted, refused, overrun}
use cashew.Router.Table.{Floats, has_content_route}
use cashew.Router.Request.Sizes.{first_size, inner_size}
use cashew.Router.Request.{ContentRequest, request_from_bytes}
use cashew.Router.Onion.{xor_with_keystream, xor_blocks, xor_block, decrypt_onion_layer}
use cashew.Router.State.{Router, next, send_request_to_peer, select_next_hop}
use cashew.Router.Node.{
  as_option, first_layer, should_forward_request, peeled, forward, can_serve_locally,
  handle_content_request,
}

length-xor_block : (xs bs : Bytes) → length (xor_block xs bs) ≡ min (length xs) (length bs)
unfolding xor_block
length-xor_block [] bs = omega arith
length-xor_block (x ∷ xs) [] = omega arith
length-xor_block (x ∷ xs) (b ∷ bs) = omega (arith, length-xor_block xs bs)

length-xor_blocks :
    (crypto : Crypto) (key : Bytes) (n c : ℕ) (xs : Bytes)
    → length (xor_blocks crypto key n c xs) ≤ length xs
unfolding xor_blocks
length-xor_blocks crypto key zero c xs = omega arith
length-xor_blocks crypto key (suc n) c [] = omega arith
length-xor_blocks crypto key (suc n) c (x ∷ xs) =
    let block = crypto.hash (key ++ le_bytes 4 c) in
    let later = xor_blocks crypto key n ((c + 1) % 2 ^ 32) (drop (length block) (x ∷ xs)) in
    omega (
      arith,
      length-append (xor_block (x ∷ xs) block) later,
      length-xor_block (x ∷ xs) block,
      length-drop (length block) (x ∷ xs),
      length-xor_blocks crypto key n ((c + 1) % 2 ^ 32) (drop (length block) (x ∷ xs)),
    )

decrypted_size :
    (crypto : Crypto) (local layer plain : Bytes)
    → decrypt_onion_layer crypto local layer ≡ some plain
    → length plain < length layer
unfolding decrypt_onion_layer xor_with_keystream
decrypted_size crypto local layer plain h =
    let whole = xor_with_keystream crypto (drop 3 layer) local in
    let bound = length-xor_blocks crypto local (length (drop 3 layer)) 0 (drop 3 layer) in
    let left : drop 32 whole ≡ plain = ground (arith, h) in
    let long : 35 ≤ length layer = ground (arith, h) in
    rw (← left) (omega (arith, bound, length-drop 3 layer, length-drop 32 whole, long))

pub as_option_accepted : {A : Type 0} (m : Parsed A) {a : A} → as_option m ≡ some a → m ≡ accepted a
as_option_accepted (accepted a) h = cc
as_option_accepted refused h = cc
as_option_accepted overrun h = cc

peeled_size :
    (crypto : Crypto) (layer : Bytes) (r : Router) (q : ContentRequest)
    → peeled crypto layer r ≡ some q
    → first_size q.onion_layers < length layer
unfolding peeled
peeled_size crypto layer r q h =
    let (plain, opened, parsed) =
      >>=-eq-some (decrypt_onion_layer crypto r.local_node_id layer)
        (λ plain. as_option (request_from_bytes plain)) h in
    omega (
      arith,
      decrypted_size crypto r.local_node_id layer plain opened,
      inner_size plain q (as_option_accepted (request_from_bytes plain) parsed),
    )

first_layer-size :
    (layers : List Bytes) (q : ContentRequest) (layer : Bytes)
    → q.onion_layers ≡ layers
    → first_layer q ≡ some layer
    → first_size layers ≡ length layer
unfolding first_layer
first_layer-size [] q layer e h = cc
first_layer-size (l ∷ ls) q layer e h = let same : l ≡ layer = cc in ap length same

-- A request is handled within one more round than the bytes of its first onion layer, whatever is inside
-- the layers: each layer that is taken off leaves a shorter one, and a request without layers needs one
-- round.
pub handle_content_request_returns :
    (crypto : Crypto) (fl : Floats) (now : ℕ) (blank : Bytes) (fuel : ℕ) (q : ContentRequest)
    (r : Router)
    → first_size q.onion_layers < fuel
    → (r' : Router) × (handle_content_request crypto fl now blank fuel q r ≡ some r')
unfolding handle_content_request
handle_content_request_returns crypto fl now blank zero q r h = absurd (omega arith)
handle_content_request_returns crypto fl now blank (suc fuel) q r h =
    let r' = record r { requests_received = next r.requests_received } in
    elim (Bool-cases (q.hop_limit == 0)) [
      | inl spent ↦ rw (spent, handle_content_request) (r', refl)
      | inr left ↦ elim (Option-cases (first_layer q)) [
        | inl bare ↦ rw (left, bare, handle_content_request) (_, refl)
        | inr (layer, eq) ↦ elim (Option-cases (peeled crypto layer r')) [
          | inl shut ↦ rw (left, eq, shut, handle_content_request) (r', refl)
          | inr (inside, opened) ↦
              rw (left, eq, opened, handle_content_request)
                (handle_content_request_returns crypto fl now blank fuel inside r' (
                  omega (
                    arith,
                    h,
                    first_layer-size q.onion_layers q layer refl eq,
                    peeled_size crypto layer r' inside opened,
                  )))
        ]
      ]
    ]

handles_bare :
    (crypto : Crypto) (fl : Floats) (now : ℕ) (blank : Bytes) (fuel : ℕ) (q : ContentRequest)
    (r : Router)
    → q.onion_layers ≡ []
    → 0 < q.hop_limit
    → can_serve_locally q.content_hash r ≡ false
    → handle_content_request crypto fl now blank (suc fuel) q r
      ≡ some (forward fl now q (record r { requests_received = next r.requests_received }))
unfolding handle_content_request can_serve_locally
handles_bare crypto fl now blank fuel q r bare left away =
    let spent : (q.hop_limit == 0) ≡ false = ground arith in
    let outer : first_layer q ≡ none = unfold first_layer in rw bare refl in
    rw (spent, outer, away, handle_content_request) refl

forward-requests :
    (fl : Floats) (now : ℕ) (q : ContentRequest) (r : Router)
    → r.has_request_callback ≡ true
    → length (select_next_hop fl now q.content_hash r) ≡ 32
    → ((forward fl now q r).responses ≡ r.responses)
      × ((forward fl now q r).requests ≡ (
          if not (leb q.hop_limit 1)
            && (not (bytes_eq q.requester_id r.local_node_id)
                && has_content_route q.content_hash r.routing_table)
          then r.requests
            ++ (select_next_hop fl now q.content_hash r, record q { hop_limit = q.hop_limit - 1 })
              ∷ []
          else r.requests))
unfolding forward should_forward_request send_request_to_peer
forward-requests fl now q r wired size = rw (wired, size) (ground arith)

-- A request without onion layers, with hops left and for content that is not local, is passed on or
-- dropped: it is passed on exactly if two hops are left, it is not the node's own and the table has hosts,
-- and then to the best host, with one hop less.
handle_content_request_relays :
    (crypto : Crypto) (fl : Floats) (now : ℕ) (blank : Bytes) (fuel : ℕ) (q : ContentRequest)
    (r : Router)
    → q.onion_layers ≡ []
    → 0 < q.hop_limit
    → can_serve_locally q.content_hash r ≡ false
    → r.has_request_callback ≡ true
    → length (select_next_hop fl now q.content_hash r) ≡ 32
    → (r' : Router) × (handle_content_request crypto fl now blank (suc fuel) q r ≡ some r')
      × (r'.responses ≡ r.responses)
      × (r'.requests ≡ (
          if not (leb q.hop_limit 1)
            && (not (bytes_eq q.requester_id r.local_node_id)
                && has_content_route q.content_hash r.routing_table)
          then r.requests
            ++ (select_next_hop fl now q.content_hash r, record q { hop_limit = q.hop_limit - 1 })
              ∷ []
          else r.requests))
unfolding select_next_hop
handle_content_request_relays crypto fl now blank fuel q r bare left away wired size =
    let r' = record r { requests_received = next r.requests_received } in
    let (answers, passed) = forward-requests fl now q r' wired size in
    (forward fl now q r', handles_bare crypto fl now blank fuel q r bare left away, answers, passed)
