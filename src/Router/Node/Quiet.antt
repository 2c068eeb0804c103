-- ===== src/Router/Node/Quiet.antt =====
-- The operations of a router that deliver no content, and how many requests wait after them.
use cashew.Prelude.{
  ℕ, zero, suc, ◌+◌, ◌≤◌, ◌≡◌, refl, ◌∙◌, Bytes, bytes_ordered, Option, none, some, List, [], ◌∷◌,
  length, ◌==◌, arith, Bool-cases, Option-cases, inl, inr,
}
use cashew.Prelude.Map.{erase, length-put, length-erase}
use cashew.Crypto.{Crypto}
use cashew.Router.Table.{Floats}
use cashew.Router.Request.{ContentRequest, ContentResponse}
use cashew.Router.State.{
  Router, next, track, generate_request_id, select_next_hop, send_request_to_peer,
  send_response_to_peer, notify_not_found,
}
use cashew.Router.Node.{
  onion_request, notify_all, cancel_all, timed_out, serve, forward, peeled, first_layer, dispatch,
  send_first, fetched, local_response, should_forward_request, can_serve_locally, request_content,
  request_content_with_onion_routing, handle_content_request, cancel_request,
  cleanup_timed_out_requests,
}

-- How a call changes what was delivered and the requests that wait: none more delivered, and at most n
-- more waiting.
abbrev pub Quiet : ℕ → Router → Router → Type 0
Quiet n r r' =
    (r'.received ≡ r.received) × (length r'.pending_requests ≤ n + length r.pending_requests)

send_request-Quiet :
    (peer : Bytes) (q : ContentRequest) (r : Router) → Quiet 0 r (send_request_to_peer peer q r)
unfolding send_request_to_peer
send_request-Quiet peer q r = ground arith

send_response-Quiet :
    (peer : Bytes) (s : ContentResponse) (r : Router) → Quiet 0 r (send_response_to_peer peer s r)
unfolding send_response_to_peer
send_response-Quiet peer s r = ground arith

notify-Quiet : (content : Bytes) (r : Router) → Quiet 0 r (notify_not_found content r)
unfolding notify_not_found
notify-Quiet content r = ground arith

track-Quiet : (q : ContentRequest) (r : Router) → Quiet 1 r (track q r)
unfolding track
track-Quiet q r = (refl, omega (arith, length-put q.request_id _ r.pending_requests))

Quiet-trans : (n k : ℕ) (r r' r'' : Router) → Quiet n r r' → Quiet k r' r'' → Quiet (k + n) r r''
Quiet-trans n k r r' r'' (a, b) (c, d) = (c ∙ a, omega arith)

send_first-Quiet : (hop : Bytes) (q : ContentRequest) (r : Router) → Quiet 0 r (send_first hop q r)
unfolding send_first
send_first-Quiet hop q r = send_request-Quiet hop q r

dispatch-Quiet :
    (fl : Floats) (now : ℕ) (q : ContentRequest) (r : Router) → Quiet 0 r (dispatch fl now q r)
unfolding dispatch
dispatch-Quiet fl now q r =
    elim (Bool-cases (length (select_next_hop fl now q.content_hash r) == 0)) [
      | inl empty ↦ rw empty (notify-Quiet q.content_hash r)
      | inr found ↦ rw found (send_first-Quiet (select_next_hop fl now q.content_hash r) q r)
    ]

dispatch-track-Quiet :
    (fl : Floats) (now : ℕ) (q : ContentRequest) (r : Router)
    → Quiet 1 r (dispatch fl now q (track q r))
dispatch-track-Quiet fl now q r =
    Quiet-trans 1 0 r (track q r) (dispatch fl now q (track q r)) (track-Quiet q r)
      (dispatch-Quiet fl now q (track q r))

send_first-track-Quiet :
    (hop : Bytes) (q : ContentRequest) (r : Router) → Quiet 1 r (send_first hop q (track q r))
send_first-track-Quiet hop q r =
    Quiet-trans 1 0 r (track q r) (send_first hop q (track q r)) (track-Quiet q r)
      (send_first-Quiet hop q (track q r))

pub request_content-Quiet :
    (crypto : Crypto) (fl : Floats) (now : ℕ) (random_bytes content : Bytes) (hops : ℕ) (r : Router)
    → Quiet 1 r (request_content crypto fl now random_bytes content hops r).1
unfolding request_content generate_request_id
request_content-Quiet crypto fl now random_bytes content hops r =
    dispatch-track-Quiet fl now _ (record r { next_request_counter = next r.next_request_counter })

pub onion-Quiet :
    (crypto : Crypto) (now : ℕ) (random_bytes content : Bytes) (route : List Bytes) (r : Router)
    → Quiet 1 r (request_content_with_onion_routing crypto now random_bytes content route r).1
unfolding request_content_with_onion_routing generate_request_id
onion-Quiet crypto now random_bytes content [] r =
    track-Quiet
      (onion_request crypto now (generate_request_id crypto random_bytes r).0 content [] r)
      (record r { next_request_counter = next r.next_request_counter })
onion-Quiet crypto now random_bytes content (hop ∷ hops) r =
    send_first-track-Quiet hop _ (record r { next_request_counter = next r.next_request_counter })

serve-Quiet : (blank : Bytes) (q : ContentRequest) (r : Router) → Quiet 0 r (serve blank q r)
unfolding serve
serve-Quiet blank q r = elim (Option-cases (fetched q.content_hash r)) [
  | inl missing ↦ rw (missing, serve) (refl, omega arith)
  | inr (content, found) ↦
      rw (found, serve) (send_response-Quiet q.requester_id (local_response q content blank r) r)
]

forward-Quiet :
    (fl : Floats) (now : ℕ) (q : ContentRequest) (r : Router) → Quiet 0 r (forward fl now q r)
unfolding forward
forward-Quiet fl now q r = elim (Bool-cases (should_forward_request q r)) [
  | inr never ↦ rw (never, forward) (refl, omega arith)
  | inl may ↦ elim (Bool-cases (length (select_next_hop fl now q.content_hash r) == 0)) [
    | inl empty ↦ rw (may, empty, forward) (refl, omega arith)
    | inr found ↦
        rw (may, found, forward) (send_request-Quiet (select_next_hop fl now q.content_hash r) _ r)
  ]
]

abbrev pub QuietIf : Router → Option Router → Type 0
QuietIf r none = Unit
QuietIf r (some r') = Quiet 0 r r'

pub handle-Quiet :
    (crypto : Crypto) (fl : Floats) (now : ℕ) (blank : Bytes) (fuel : ℕ) (q : ContentRequest)
    (r : Router)
    → QuietIf r (handle_content_request crypto fl now blank fuel q r)
unfolding handle_content_request
handle-Quiet crypto fl now blank zero q r = tt
handle-Quiet crypto fl now blank (suc fuel) q r =
    let r' = record r { requests_received = next r.requests_received } in
    let still : Quiet 0 r r' = (refl, omega arith) in
    elim (Bool-cases (q.hop_limit == 0)) [
      | inl spent ↦ rw (spent, handle_content_request) still
      | inr left ↦ elim (Option-cases (first_layer q)) [
        | inl bare ↦ elim (Bool-cases (can_serve_locally q.content_hash r')) [
          | inl here ↦ rw (left, bare, here, handle_content_request) (serve-Quiet blank q r')
          | inr away ↦ rw (left, bare, away, handle_content_request) (forward-Quiet fl now q r')
        ]
        | inr (layer, outer) ↦ elim (Option-cases (peeled crypto layer r')) [
          | inl shut ↦ rw (left, outer, shut, handle_content_request) still
          | inr (inside, opened) ↦
              rw (left, outer, opened, handle_content_request)
                (handle-Quiet crypto fl now blank fuel inside r')
        ]
      ]
    ]

cancel_all-Quiet : (out : List (Bytes × Bytes)) (r : Router) → Quiet 0 r (cancel_all out r)
unfolding cancel_all cancel_request
cancel_all-Quiet [] r = (refl, omega arith)
cancel_all-Quiet ((id, content) ∷ out) r =
    let r' = record r { pending_requests = erase id r.pending_requests } in
    Quiet-trans 0 0 r r' (cancel_all out r')
      (refl, omega (arith, length-erase id r.pending_requests)) (cancel_all-Quiet out r')

notify_all-Quiet : (out : List (Bytes × Bytes)) (r : Router) → Quiet 0 r (notify_all out r)
unfolding notify_all
notify_all-Quiet [] r = (refl, omega arith)
notify_all-Quiet ((id, content) ∷ out) r =
    Quiet-trans 0 0 r (notify_not_found content r) (notify_all out (notify_not_found content r))
      (notify-Quiet content r) (notify_all-Quiet out (notify_not_found content r))

pub cleanup-Quiet : (now : ℕ) (r : Router) → Quiet 0 r (cleanup_timed_out_requests now r)
unfolding cleanup_timed_out_requests
cleanup-Quiet now r =
    let out = timed_out now r.pending_requests in
    Quiet-trans 0 0 r (notify_all out r) (cancel_all out (notify_all out r))
      (notify_all-Quiet out r) (cancel_all-Quiet out (notify_all out r))
