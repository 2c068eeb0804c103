-- ===== src/Ledger/Runs.antt =====
-- Whatever a node does to its ledger keeps the invariant, and validate_chain accepts it.
use cashew.Prelude.{
  ℕ, ◌≡◌, refl, true, Bytes, bytes_eq_iff, bytes_ordered, List, [], ◌∷◌, arith, ◌↔◌,
}
use cashew.Prelude.Map.{find}
use cashew.Crypto.{Crypto}
use cashew.Ledger.EventType.{EventType}
use cashew.Ledger.Event.{LedgerEvent, compute_hash}
use cashew.Ledger.Index.{rebuild_from_events, add_events}
use cashew.Ledger.Store.{
  Ledger, init, zero_hash, set_event_callback, tip, add_external_event, record_event,
  validate_chain, validate_from, validate,
}
use cashew.Ledger.Chain.{Linked, IsLedger, add_external_event-IsLedger, record_event-IsLedger}

-- What a node does to its ledger, besides loading a file.
pub data Call : Type 0 where
  records : ℕ → EventType → Bytes → Call
  receives : ℕ → LedgerEvent → Call
  registers : Call

unfoldable pub step : Crypto → Call → Ledger → Ledger
step crypto (records now type payload) l = (record_event crypto now type payload l).0
step crypto (receives now e) l = (add_external_event crypto now e l).0
step crypto registers l = set_event_callback l

unfoldable pub run : Crypto → List Call → Ledger → Ledger
unfolding step
run crypto [] l = l
run crypto (c ∷ cs) l = run crypto cs (step crypto c l)

init-IsLedger : (crypto : Crypto) (node : Bytes) → IsLedger crypto (init node)
unfolding init find rebuild_from_events add_events tip
init-IsLedger crypto node = record {
  store = record {
    linked = tt;
    placed = λ id i h. absurd (ground (arith, h));
    found = λ i e h. absurd (ground (arith, h));
    indexed = refl;
  };
  tip_hash = refl;
}

step-IsLedger :
    (crypto : Crypto) (c : Call) (l : Ledger)
    → IsLedger crypto l
    → IsLedger crypto (step crypto c l)
unfolding step set_event_callback
step-IsLedger crypto (records now type payload) l v =
    record_event-IsLedger crypto now type payload l v
step-IsLedger crypto (receives now e) l v = add_external_event-IsLedger crypto now e l v
step-IsLedger crypto registers l v = record {
  store = record { linked = v.linked; placed = v.placed; found = v.found; indexed = v.indexed };
  tip_hash = v.tip_hash;
}

run-IsLedger :
    (crypto : Crypto) (cs : List Call) (l : Ledger)
    → IsLedger crypto l
    → IsLedger crypto (run crypto cs l)
unfolding run
run-IsLedger crypto [] l v = v
run-IsLedger crypto (c ∷ cs) l v =
    run-IsLedger crypto cs (step crypto c l) (step-IsLedger crypto c l v)

validate_from-Linked :
    (crypto : Crypto) (prev : Bytes) (es : List LedgerEvent)
    → (validate_from crypto prev es ≡ true) ↔ Linked crypto prev es
unfolding validate_from
validate_from-Linked crypto prev [] = ((λ h. tt), λ h. refl)
validate_from-Linked crypto prev (e ∷ es) =
    let (sound, complete) = validate_from-Linked crypto (compute_hash crypto e) es in
    (
      (λ h. ((bytes_eq_iff e.previous_hash prev).0 (ground arith), sound (ground arith))),
      λ h. rw ((bytes_eq_iff e.previous_hash prev).1 h.0, complete h.1),
    )

Linked-validate :
    (crypto : Crypto) (prev : Bytes) (es : List LedgerEvent)
    → Linked crypto prev es
    → validate crypto es ≡ true
unfolding validate
Linked-validate crypto prev [] h = refl
Linked-validate crypto prev (e ∷ es) h =
    (validate_from-Linked crypto (compute_hash crypto e) es).1 h.1

-- Whatever events a node records locally or receives from peers, starting from a new ledger, its
-- ledger is a hash chain from the zero hash, its lookup table places every event and nothing else, its
-- index is the one rebuilt from its events, its latest hash is that of its last event, and
-- validate_chain accepts it.
pub run-init-IsLedger :
    (crypto : Crypto) (cs : List Call) (node : Bytes)
    → IsLedger crypto (run crypto cs (init node))
      × (validate_chain crypto (run crypto cs (init node)) ≡ true)
unfolding validate_chain
run-init-IsLedger crypto cs node =
    let v = run-IsLedger crypto cs (init node) (init-IsLedger crypto node) in
    (v, Linked-validate crypto zero_hash (run crypto cs (init node)).events v.linked)
