-- ===== src/Router/Node/Relaying.antt =====
-- How far a request travels: what handle_content_request newly sends, and that relaying ends.
use cashew.Prelude.{
  ℕ, zero, suc, ◌+◌, ◌-◌, ◌<◌, ◌≤◌, ◌≡◌, refl, sym, ◌∙◌, ap, some_inj, get_elem?,
  get_elem?-append_right, get_elem?_bound, Bytes, bytes_ordered, none, some, [], ◌∷◌, ◌++◌, length,
  ◌==◌, arith, Bool-cases, Option-cases, inl, inr,
}
use cashew.Crypto.{Crypto}
use cashew.Router.Table.{Floats}
use cashew.Router.Request.{ContentRequest}
use cashew.Router.State.{Router, next, send_request_to_peer, send_response_to_peer, select_next_hop}
use cashew.Router.Node.{
  first_layer, fetched, serve, should_forward_request, forward, can_serve_locally,
  handle_content_request,
}

-- What forward newly hands to the request callback is the request with one hop less.
forwards_lowered :
    (fl : Floats) (now : ℕ) (q : ContentRequest) (r : Router) (i : ℕ) (peer : Bytes)
    (q' : ContentRequest)
    → length r.requests ≤ i
    → get_elem? (forward fl now q r).requests i ≡ some (peer, q')
    → (q' ≡ record q { hop_limit = q.hop_limit - 1 }) × (1 < q.hop_limit)
unfolding forward
forwards_lowered fl now q r i peer q' later sent =
    let lower = record q { hop_limit = q.hop_limit - 1 } in
    let hop = select_next_hop fl now q.content_hash r in
    elim (Bool-cases (should_forward_request q r)) [
      | inr stays ↦ absurd (nothing_new (rw stays refl))
      | inl may ↦ elim (Bool-cases (length hop == 0)) [
        | inl nowhere ↦ absurd (nothing_new (rw (may, nowhere) refl))
        | inr somewhere ↦ elim (Bool-cases r.has_request_callback) [
          | inr alone ↦
              absurd (nothing_new (unfold send_request_to_peer in rw (may, somewhere, alone) refl))
          | inl wired ↦
              let log : (forward fl now q r).requests ≡ r.requests ++ (hop, lower) ∷ [] =
                unfold send_request_to_peer in rw (may, somewhere, wired) refl in
              let new =
                sym (get_elem?-append_right r.requests ((hop, lower) ∷ []) i later)
                ∙ ap (λ l. get_elem? l i) (sym log)
                ∙ sent in
              (
                only (hop, lower) (i - length r.requests) new,
                unfold should_forward_request in ground (arith, may),
              )
        ]
      ]
    ]
  where
    nothing_new : (forward fl now q r).requests ≡ r.requests → ⊥
    nothing_new same =
        let at = get_elem?_bound r.requests i (ap (λ l. get_elem? l i) (sym same) ∙ sent) in
        omega arith

    only : (x : Bytes × ContentRequest) (j : ℕ) → get_elem? (x ∷ []) j ≡ some (peer, q') → q' ≡ x.1
    only x zero h = sym (ap (λ (y : Bytes × ContentRequest). y.1) (some_inj h))
    only x (suc j) h = absurd (ground (arith, h))

requests-serve :
    (blank : Bytes) (q : ContentRequest) (r : Router) → (serve blank q r).requests ≡ r.requests
unfolding serve send_response_to_peer
requests-serve blank q r = elim (Option-cases (fetched q.content_hash r)) [
  | inl missing ↦ rw (missing, serve) refl
  | inr (content, there) ↦
      rw (there, serve)
        (elim (Bool-cases r.has_response_callback) [
          | inl wired ↦ rw wired refl
          | inr alone ↦ rw alone refl
        ])
]

-- What handle_content_request newly hands to the request callback for a request without layers.
handles_lowered :
    (crypto : Crypto) (fl : Floats) (now : ℕ) (blank : Bytes) (fuel : ℕ) (q : ContentRequest)
    (r r' : Router) (i : ℕ) (peer : Bytes) (q' : ContentRequest)
    → q.onion_layers ≡ []
    → handle_content_request crypto fl now blank fuel q r ≡ some r'
    → length r.requests ≤ i
    → get_elem? r'.requests i ≡ some (peer, q')
    → (q' ≡ record q { hop_limit = q.hop_limit - 1 }) × (1 < q.hop_limit)
unfolding handle_content_request
handles_lowered crypto fl now blank zero q r r' i peer q' bare done later sent =
    absurd (ground (arith, done))
handles_lowered crypto fl now blank (suc fuel) q r r' i peer q' bare done later sent =
    let r₁ = record r { requests_received = next r.requests_received } in
    let outer : first_layer q ≡ none = unfold first_layer in rw bare refl in
    elim (Bool-cases (q.hop_limit == 0)) [
      | inl spent ↦
          let same : r₁ ≡ r' = some_inj (sym (rw (spent, handle_content_request) refl) ∙ done) in
          absurd (nothing_new (ap (λ (x : Router). x.requests) (sym same)))
      | inr left ↦ elim (Bool-cases (can_serve_locally q.content_hash r₁)) [
        | inl here ↦
            let same : serve blank q r₁ ≡ r' =
              some_inj (sym (rw (left, outer, here, handle_content_request) refl) ∙ done) in
            absurd
              (nothing_new (ap (λ (x : Router). x.requests) (sym same) ∙ requests-serve blank q r₁))
        | inr away ↦
            let same : forward fl now q r₁ ≡ r' =
              some_inj (sym (rw (left, outer, away, handle_content_request) refl) ∙ done) in
            forwards_lowered fl now q r₁ i peer q' later
              (ap (λ (x : Router). get_elem? x.requests i) same ∙ sent)
      ]
    ]
  where
    nothing_new : r'.requests ≡ r.requests → ⊥
    nothing_new same =
        let at = get_elem?_bound r.requests i (ap (λ l. get_elem? l i) (sym same) ∙ sent) in
        omega arith

-- The way of a request: each node, in whatever state, handles the request that it got, and the next
-- node gets what was newly handed to the request callback.
pub data Relays (q : ContentRequest) : ℕ → ContentRequest → Type 0 where
  starts : Relays q 0 q
  relays :
      {n : ℕ} {q' : ContentRequest}
      → Relays q n q'
      → (crypto : Crypto) (fl : Floats) (now : ℕ) (blank : Bytes) (fuel : ℕ) (r r' : Router)
      → handle_content_request crypto fl now blank fuel q' r ≡ some r'
      → (i : ℕ) (peer : Bytes) (q'' : ContentRequest) → length r.requests ≤ i
      → get_elem? r'.requests i ≡ some (peer, q'')
      → Relays q (suc n) q''

Relays-count :
    {q : ContentRequest} {n : ℕ} {q' : ContentRequest}
    → Relays q n q'
    → q.onion_layers ≡ []
    → (q'.hop_limit + n ≡ q.hop_limit) × (0 < n → 0 < q'.hop_limit) × (q'.onion_layers ≡ [])
Relays-count starts bare = (omega arith, (λ h. absurd (omega arith)), bare)
Relays-count (relays {n} {q'} chain crypto fl now blank fuel r r' done i peer q'' later sent) bare =
    let (count, left, bare') = Relays-count chain bare in
    let (same, more) =
      handles_lowered crypto fl now blank fuel q' r r' i peer q'' bare' done later sent in
    rw same (omega (arith, count, more), (λ h. omega (arith, more)), bare')

-- Along any way of at least one step on which each node is handed what handle_content_request of the one
-- before newly gave to the request callback, a request without onion layers loses one hop of its limit
-- for each step and keeps at least one, so that it is passed on fewer times than its hop limit.
pub relay_ends :
    {q : ContentRequest} {n : ℕ} {q' : ContentRequest}
    → Relays q (suc n) q'
    → q.onion_layers ≡ []
    → (q'.hop_limit + suc n ≡ q.hop_limit) × (suc n < q.hop_limit)
relay_ends chain bare =
    let (count, left, _) = Relays-count chain bare in
    (count, omega (arith, count, left (omega arith)))
