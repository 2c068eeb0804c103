-- ===== src/Router/Node/Answers.antt =====
-- What becomes of a request that is answered with another content.
use mathlib.Core.Path.{subst}
use cashew.Prelude.{
  ℕ, ◌≡◌, ◌≢◌, refl, sym, ap, ◌∙◌, true, false, map, select, select-append, append-nil, Bytes,
  bytes_eq, bytes_eq_iff, bytes_ordered, none, some, List, [], ◌∷◌, ◌++◌, All, arith,
}
use cashew.Prelude.Map.{Map, find, put, find-put, find-erase}
use cashew.Crypto.{Crypto}
use cashew.Router.Table.{Floats}
use cashew.Router.Request.{ContentRequest, ContentResponse}
use cashew.Router.State.{
  Router, PendingRequest, next, generate_request_id, track, send_request_to_peer, notify_not_found,
}
use cashew.Router.Node.{
  dispatch, send_first, get_pending_request, deliver, request_content, handle_content_response,
}
use cashew.Router.Node.Delivery.{asks, gets_response, run, step}

-- What a response does that is believed, and one for a request that does not wait.
response_believed :
    (crypto : Crypto) (fl : Floats) (s : ContentResponse) (p : PendingRequest) (r : Router)
    → find s.request_id r.pending_requests ≡ some p
    → crypto.hash s.content_data ≡ s.content_hash
    → r.response_verify_callback ≡ none
    → r.has_received_callback ≡ true
    → ((handle_content_response crypto fl s r).received
        ≡ r.received ++ (s.content_hash, s.content_data) ∷ [])
      × (find s.request_id (handle_content_response crypto fl s r).pending_requests ≡ none)
unfolding handle_content_response deliver
response_believed crypto fl s p r waits own unsigned wired =
    let right : bytes_eq (crypto.hash s.content_data) s.content_hash ≡ true =
      (bytes_eq_iff _ _).1 own in
    rw (waits, right, unsigned, wired, handle_content_response)
      (
        refl,
        ground (
          arith,
          find-erase s.request_id s.request_id r.pending_requests,
          bytes_eq_iff s.request_id s.request_id,
        ),
      )

response_unasked :
    (crypto : Crypto) (fl : Floats) (s : ContentResponse) (r : Router)
    → find s.request_id r.pending_requests ≡ none
    → handle_content_response crypto fl s r
      ≡ record r { responses_received = next r.responses_received }
unfolding handle_content_response
response_unasked crypto fl s r unknown = rw (unknown, handle_content_response) refl

run-responses_unasked :
    (crypto : Crypto) (fl : Floats) (id : Bytes) (later : List ContentResponse) (r : Router)
    → All (λ (s : ContentResponse). s.request_id ≡ id) later
    → find id r.pending_requests ≡ none
    → ((run crypto (map (gets_response fl) later) r).received ≡ r.received)
      × (find id (run crypto (map (gets_response fl) later) r).pending_requests ≡ none)
unfolding run step
run-responses_unasked crypto fl id [] r under unknown = (refl, unknown)
run-responses_unasked crypto fl id (s ∷ later) r (here, under) unknown =
    let ignored = response_unasked crypto fl s r (rw here unknown) in
    let r₁ = record r { responses_received = next r.responses_received } in
    subst
      (λ (x : Router).
        ((run crypto (map (gets_response fl) later) x).received ≡ r.received)
        × (find id (run crypto (map (gets_response fl) later) x).pending_requests ≡ none))
      (sym ignored) (run-responses_unasked crypto fl id later r₁ under unknown)

-- What request_content leaves as it was, and that its request waits.
dispatch-keeps :
    (fl : Floats) (now : ℕ) (q : ContentRequest) (r : Router)
    → ((dispatch fl now q r).received ≡ r.received)
      × ((dispatch fl now q r).pending_requests ≡ r.pending_requests)
      × ((dispatch fl now q r).response_verify_callback ≡ r.response_verify_callback)
      × ((dispatch fl now q r).has_received_callback ≡ r.has_received_callback)
unfolding dispatch send_first send_request_to_peer notify_not_found
dispatch-keeps fl now q r = ground arith

find-put_same :
    (id : Bytes) (p : PendingRequest) (m : Map Bytes PendingRequest) → find id (put id p m) ≡ some p
find-put_same id p m = ground (arith, find-put id id p m, bytes_eq_iff id id)

tracked_waits :
    (fl : Floats) (now : ℕ) (q : ContentRequest) (r : Router)
    → let r' = dispatch fl now q (track q r) in
      ((p : PendingRequest) × (find q.request_id r'.pending_requests ≡ some p))
      × (r'.received ≡ r.received)
      × (r'.response_verify_callback ≡ r.response_verify_callback)
      × (r'.has_received_callback ≡ r.has_received_callback)
unfolding track
tracked_waits fl now q r =
    let (same, added, verifies, wired) = dispatch-keeps fl now q (track q r) in
    (
      (_, ap (find q.request_id) added ∙ find-put_same q.request_id _ r.pending_requests),
      same,
      verifies,
      wired,
    )

request_content_waits :
    (crypto : Crypto) (fl : Floats) (now : ℕ) (random_bytes content : Bytes) (hops : ℕ) (r : Router)
    → let (id, r') = request_content crypto fl now random_bytes content hops r in
      ((p : PendingRequest) × (find id r'.pending_requests ≡ some p))
      × (r'.received ≡ r.received)
      × (r'.response_verify_callback ≡ r.response_verify_callback)
      × (r'.has_received_callback ≡ r.has_received_callback)
unfolding request_content generate_request_id
request_content_waits crypto fl now random_bytes content hops r =
    tracked_waits fl now _ (record r { next_request_counter = next r.next_request_counter })

-- The deliveries of a content.
abbrev pub deliveries : Bytes → List (Bytes × Bytes) → List (Bytes × Bytes)
deliveries content = select (λ (p : Bytes × Bytes). bytes_eq (p.0) content)

-- A request for `content` is used up by a response with any other content. Without a callback that
-- verifies responses, and with one that receives contents: if the response that comes next has the id of
-- the request and names the hash of its data, which is not the hash that was asked for, then that
-- data is delivered. Whatever responses follow under the id, nothing more is delivered, so that
-- `content` is delivered no more often than before, and no request waits under the id.
pub answered_by_other_content :
    (crypto : Crypto) (fl : Floats) (now : ℕ) (random_bytes content : Bytes) (hops : ℕ)
    (s : ContentResponse) (later : List ContentResponse) (r : Router)
    → s.request_id ≡ (request_content crypto fl now random_bytes content hops r).0
    → crypto.hash s.content_data ≡ s.content_hash
    → s.content_hash ≢ content
    → r.response_verify_callback ≡ none
    → r.has_received_callback ≡ true
    → All (λ (x : ContentResponse). x.request_id ≡ s.request_id) later
    → let r' =
        run crypto
          (asks fl now random_bytes content hops
            ∷ gets_response fl s
            ∷ map (gets_response fl) later)
          r in
      (r'.received ≡ r.received ++ (s.content_hash, s.content_data) ∷ [])
      × (deliveries content r'.received ≡ deliveries content r.received)
      × (get_pending_request s.request_id r' ≡ none)
unfolding run step get_pending_request
answered_by_other_content crypto fl now random_bytes content hops s later r named own other unsigned
      wired under =
    let r₁ = (request_content crypto fl now random_bytes content hops r).1 in
    let r₂ = handle_content_response crypto fl s r₁ in
    let ((p, waits), same, unsigned', wired') =
      request_content_waits crypto fl now random_bytes content hops r in
    let (got, done) =
      response_believed crypto fl s p r₁ (rw named waits) own (unsigned' ∙ unsigned)
        (wired' ∙ wired) in
    let (still, none_waits) = run-responses_unasked crypto fl s.request_id later r₂ under done in
    let log = still ∙ got ∙ ap (λ l. l ++ (s.content_hash, s.content_data) ∷ []) same in
    let wrong : bytes_eq s.content_hash content ≡ false =
      ground (arith, bytes_eq_iff s.content_hash content, other) in
    let no_more : deliveries content ((s.content_hash, s.content_data) ∷ []) ≡ [] = rw wrong refl in
    (
      log,
      ap (deliveries content) log
          ∙ select-append _ r.received _
          ∙ ap (λ l. deliveries content r.received ++ l) no_more
          ∙ append-nil (deliveries content r.received),
      none_waits,
    )
