-- ===== src/Router/Node/Delivery.antt =====
-- Which responses a router delivers, and how often.
use mathlib.Core.Path.{subst}
use cashew.Prelude.{
  ℕ, ◌+◌, ◌<◌, ◌≤◌, ◌≡◌, refl, sym, true, Bytes, bytes_eq, bytes_eq_iff, bytes_ordered, Option,
  none, some, List, [], ◌∷◌, ◌++◌, All, length, length-append, arith, Bool-cases, Option-cases, inl,
  inr,
}
use cashew.Prelude.Map.{find, erase, length-erase, length-erase_found}
use cashew.Crypto.{Crypto}
use cashew.Router.Table.{Floats, cleanup_stale_entries}
use cashew.Router.Request.{ContentRequest, ContentResponse}
use cashew.Router.Node.Quiet.{
  Quiet, QuietIf, request_content-Quiet, onion-Quiet, handle-Quiet, cleanup-Quiet,
}
use cashew.Router.State.{Router, next}
use cashew.Router.Node.{
  verified, deliver, request_content, request_content_with_onion_routing, handle_content_request,
  handle_content_response, update_routing_table, advertise_local_content, remove_local_content,
  cancel_request, update_statistics,
}

-- What is asked of a router, and what reaches it.
pub data Call : Type 0 where
  asks : Floats → ℕ → Bytes → Bytes → ℕ → Call
  asks_onion : ℕ → Bytes → Bytes → List Bytes → Call
  gets_request : Floats → ℕ → Bytes → ℕ → ContentRequest → Call
  gets_response : Floats → ContentResponse → Call
  meets : ℕ → Bytes → ℕ → Call
  advertises : Bytes → Call
  withdraws : Bytes → Call
  cancels : Bytes → Call
  tidies : ℕ → Call

-- The state stays what it was if the rounds for a request are too few.
abbrev kept : Router → Option Router → Router
kept r none = r
kept r (some r') = r'

unfoldable pub step : Crypto → Call → Router → Router
step crypto (asks fl now random_bytes content hops) r =
    (request_content crypto fl now random_bytes content hops r).1
step crypto (asks_onion now random_bytes content route) r =
    (request_content_with_onion_routing crypto now random_bytes content route r).1
step crypto (gets_request fl now blank fuel q) r =
    kept r (handle_content_request crypto fl now blank fuel q r)
step crypto (gets_response fl s) r = handle_content_response crypto fl s r
step crypto (meets now node hops) r = update_routing_table now node hops r
step crypto (advertises content) r = advertise_local_content content r
step crypto (withdraws content) r = remove_local_content content r
step crypto (cancels id) r = cancel_request id r
step crypto (tidies now) r = update_statistics now r

unfoldable pub run : Crypto → List Call → Router → Router
unfolding step
run crypto [] r = r
run crypto (c ∷ cs) r = run crypto cs (step crypto c r)

-- How many requests were made.
abbrev asked : Call → ℕ
asked (asks fl now random_bytes content hops) = 1
asked (asks_onion now random_bytes content route) = 1
asked other = 0

abbrev pub asked_in : List Call → ℕ
asked_in [] = 0
asked_in (c ∷ cs) = asked c + asked_in cs

-- A call is quiet, or delivers content with its hash to a request that waits no longer.
data Effect (crypto : Crypto) (n : ℕ) (r r' : Router) : Type 0 where
  quiet : Quiet n r r' → Effect crypto n r r'
  delivers :
      (hash content : Bytes)
      → crypto.hash content ≡ hash
      → r'.received ≡ r.received ++ (hash, content) ∷ []
      → length r'.pending_requests < length r.pending_requests
      → Effect crypto n r r'

deliver-Effect :
    (crypto : Crypto) (fl : Floats) (s : ContentResponse) (r : Router)
    → bytes_eq (crypto.hash s.content_data) s.content_hash ≡ true
    → length (erase s.request_id r.pending_requests) < length r.pending_requests
    → Effect crypto 0 r (deliver fl s (record r { responses_received = next r.responses_received }))
unfolding deliver
deliver-Effect crypto fl s r right less = elim (Bool-cases r.has_received_callback) [
  | inl wired ↦
      delivers s.content_hash s.content_data ((bytes_eq_iff _ _).0 right) (rw wired refl) less
  | inr alone ↦ quiet (rw alone refl, omega arith)
]

response-Effect :
    (crypto : Crypto) (fl : Floats) (s : ContentResponse) (r : Router)
    → Effect crypto 0 r (handle_content_response crypto fl s r)
unfolding handle_content_response
response-Effect crypto fl s r =
    let r' = record r { responses_received = next r.responses_received } in
    let still : Effect crypto 0 r r' = quiet (refl, omega arith) in
    elim (Option-cases (find s.request_id r.pending_requests)) [
      | inl unknown ↦ rw (unknown, handle_content_response) still
      | inr (p, waits) ↦ elim (Bool-cases (bytes_eq (crypto.hash s.content_data) s.content_hash)) [
        | inr wrong ↦ rw (waits, wrong, handle_content_response) still
        | inl right ↦ elim (Bool-cases (verified s r')) [
          | inr forged ↦ rw (waits, right, forged, handle_content_response) still
          | inl signed ↦
              rw (waits, right, signed, handle_content_response)
                (deliver-Effect crypto fl s r right
                  (length-erase_found s.request_id r.pending_requests p waits))
        ]
      ]
    ]

step-Effect :
    (crypto : Crypto) (c : Call) (r : Router) → Effect crypto (asked c) r (step crypto c r)
unfolding step update_routing_table advertise_local_content remove_local_content cancel_request
    update_statistics
step-Effect crypto (asks fl now random_bytes content hops) r =
    quiet (request_content-Quiet crypto fl now random_bytes content hops r)
step-Effect crypto (asks_onion now random_bytes content route) r =
    quiet (onion-Quiet crypto now random_bytes content route r)
step-Effect crypto (gets_request fl now blank fuel q) r =
    elim (Option-cases (handle_content_request crypto fl now blank fuel q r)) [
      | inl over ↦ rw over (quiet (refl, omega arith))
      | inr (r', done) ↦
          rw done (quiet (subst (QuietIf r) done (handle-Quiet crypto fl now blank fuel q r)))
    ]
step-Effect crypto (gets_response fl s) r = response-Effect crypto fl s r
step-Effect crypto (meets now node hops) r = quiet (refl, omega arith)
step-Effect crypto (advertises content) r = quiet (refl, omega arith)
step-Effect crypto (withdraws content) r = quiet (refl, omega arith)
step-Effect crypto (cancels id) r = quiet (refl, omega (arith, length-erase id r.pending_requests))
step-Effect crypto (tidies now) r =
    quiet
      (cleanup-Quiet now (record r { routing_table = cleanup_stale_entries now r.routing_table }))

-- Contents under their hashes.
abbrev pub AreHashed : Crypto → List (Bytes × Bytes) → Type 0
AreHashed crypto = All (λ (p : Bytes × Bytes). crypto.hash (p.1) ≡ p.0)

AreHashed-append :
    (crypto : Crypto) (ps : List (Bytes × Bytes)) (hash content : Bytes)
    → AreHashed crypto ps
    → crypto.hash content ≡ hash
    → AreHashed crypto (ps ++ (hash, content) ∷ [])
AreHashed-append crypto [] hash content h e = (e, tt)
AreHashed-append crypto (p ∷ ps) hash content (hp, h) e =
    (hp, AreHashed-append crypto ps hash content h e)

-- What was delivered is hashed, and with the requests that wait it is no more than a number.
abbrev Within : Crypto → ℕ → Router → Type 0
Within crypto n r =
    AreHashed crypto r.received × (length r.received + length r.pending_requests ≤ n)

Effect-Within :
    (crypto : Crypto) (n k : ℕ) (r r' : Router)
    → Effect crypto k r r'
    → Within crypto n r
    → Within crypto (k + n) r'
Effect-Within crypto n k r r' (quiet (same, few)) (h, b) =
    (subst (AreHashed crypto) (sym same) h, rw same (omega arith))
Effect-Within crypto n k r r' (delivers hash content e got less) (h, b) = (
  subst (AreHashed crypto) (sym got) (AreHashed-append crypto r.received hash content h e),
  rw got (omega (arith, length-append r.received ((hash, content) ∷ []))),
)

run-Within :
    (crypto : Crypto) (cs : List Call) (n : ℕ) (r : Router)
    → Within crypto n r
    → Within crypto (asked_in cs + n) (run crypto cs r)
unfolding run
run-Within crypto [] n r (h, b) = (h, omega arith)
run-Within crypto (c ∷ cs) n r w =
    let (h, b) =
      run-Within crypto cs (asked c + n) (step crypto c r)
        (Effect-Within crypto n (asked c) r (step crypto c r) (step-Effect crypto c r) w) in
    (h, omega arith)

-- Whatever a router that has delivered nothing and waits for nothing is asked and receives, every
-- content that it delivers has the hash that it is delivered under, and it delivers no more
-- contents than it was asked for.
pub delivered_sound :
    (crypto : Crypto) (cs : List Call) (r : Router)
    → r.received ≡ []
    → r.pending_requests ≡ []
    → AreHashed crypto (run crypto cs r).received
      × (length (run crypto cs r).received ≤ asked_in cs)
delivered_sound crypto cs r clean idle =
    let start : Within crypto 0 r = rw (clean, idle) (tt, omega arith) in
    let (h, b) = run-Within crypto cs 0 r start in (h, omega arith)
