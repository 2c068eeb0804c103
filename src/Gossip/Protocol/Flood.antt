-- ===== src/Gossip/Protocol/Flood.antt =====
-- How far a message travels, and to how many peers.
use cashew.Prelude.{
  ℕ, zero, suc, ◌+◌, ◌-◌, ◌*◌, ◌%◌, ◌^◌, ◌<◌, ◌≤◌, ◌≡◌, refl, sym, ap, ◌∙◌, min, Bool, true, false,
  Bytes, bytes_eq, bytes_ordered, none, some, some_inj, Option-cases, get_elem?-append_right,
  get_elem?_bound, List, [], ◌∷◌, ◌++◌, map, length, get_elem?, append_assoc, append-nil, arith,
  Bool-cases, inl, inr, if◌then◌else◌,
}
use cashew.Gossip.Message.{GossipMessage, has_exceeded_hops, is_too_old}
use cashew.Gossip.Protocol.{
  GossipProtocol, Draw, should_propagate, mark_as_seen, invoke_handlers, erase_at, pick,
  get_random_peers, send_to_peer, send_all, forwarded, accept, receive_message, broadcast_message,
  has_seen_message,
}

-- The calls of the send callback for a list of peers.
abbrev pub to_each : List Bytes → GossipMessage → List (Bytes × GossipMessage)
to_each peers m = map (λ peer. (peer, m)) peers

callback-send_to_peer :
    (send : Bytes → GossipMessage → Bool) (peer : Bytes) (m : GossipMessage) (p : GossipProtocol)
    → p.send_callback ≡ some send
    → (send_to_peer peer m p).send_callback ≡ some send
unfolding send_to_peer
callback-send_to_peer send peer m p wired = rw (wired, send_to_peer) wired

sent-send_to_peer :
    (send : Bytes → GossipMessage → Bool) (peer : Bytes) (m : GossipMessage) (p : GossipProtocol)
    → p.send_callback ≡ some send
    → (send_to_peer peer m p).sent ≡ p.sent ++ (peer, m) ∷ []
unfolding send_to_peer
sent-send_to_peer send peer m p wired = rw (wired, send_to_peer)

counted-send_to_peer :
    (peer : Bytes) (m : GossipMessage) (p : GossipProtocol) (send : Bytes → GossipMessage → Bool)
    → p.send_callback ≡ some send
    → send peer m ≡ true
    → (send_to_peer peer m p).messages_sent ≡ (p.messages_sent + 1) % 2 ^ 64
unfolding send_to_peer
counted-send_to_peer peer m p send wired taken = rw (wired, send_to_peer) (rw taken)

sent-send_all :
    (send : Bytes → GossipMessage → Bool) (peers : List Bytes) (m : GossipMessage)
    (p : GossipProtocol)
    → p.send_callback ≡ some send
    → (send_all peers m p).sent ≡ p.sent ++ to_each peers m
unfolding send_all
sent-send_all send [] m p wired = sym (append-nil p.sent)
sent-send_all send (peer ∷ peers) m p wired =
    sent-send_all send peers m (send_to_peer peer m p) (callback-send_to_peer send peer m p wired)
    ∙ ap (λ x. x ++ to_each peers m) (sent-send_to_peer send peer m p wired)
    ∙ append_assoc p.sent ((peer, m) ∷ []) (to_each peers m)

sent-accept :
    (draw : Draw) (now : ℕ) (m : GossipMessage) (p : GossipProtocol)
    (send : Bytes → GossipMessage → Bool)
    → p.send_callback ≡ some send
    → (accept draw now m p).sent
      ≡ p.sent ++ to_each (get_random_peers draw p.fanout p) (forwarded m)
unfolding accept mark_as_seen invoke_handlers get_random_peers
sent-accept draw now m p send wired =
    sent-send_all send (get_random_peers draw p.fanout p) (forwarded m)
      (invoke_handlers m (mark_as_seen now m.message_id p)) wired

-- What receive_message hands to the send callback: nothing if the message is not propagated, and
-- otherwise the message with one hop more, to each peer that is drawn.
sent-receive_message :
    (draw : Draw) (now : ℕ) (m : GossipMessage) (p : GossipProtocol)
    (send : Bytes → GossipMessage → Bool)
    → p.send_callback ≡ some send
    → (receive_message draw now m p).sent ≡ (
        if should_propagate now m p
        then p.sent ++ to_each (get_random_peers draw p.fanout p) (forwarded m)
        else p.sent)
unfolding receive_message should_propagate has_seen_message
sent-receive_message draw now m p send wired = elim (Bool-cases (should_propagate now m p)) [
  | inl fresh ↦ rw fresh (
      sent-accept draw now m (record p { messages_received = (p.messages_received + 1) % 2 ^ 64 })
        send wired)
  | inr stale ↦ rw stale
]

unsent-send_to_peer :
    (peer : Bytes) (m : GossipMessage) (p : GossipProtocol)
    → p.send_callback ≡ none
    → ((send_to_peer peer m p).sent ≡ p.sent) × ((send_to_peer peer m p).send_callback ≡ none)
unfolding send_to_peer
unsent-send_to_peer peer m p alone = rw (alone, send_to_peer) (refl, alone)

unsent-send_all :
    (peers : List Bytes) (m : GossipMessage) (p : GossipProtocol)
    → p.send_callback ≡ none
    → (send_all peers m p).sent ≡ p.sent
unfolding send_all
unsent-send_all [] m p alone = refl
unsent-send_all (peer ∷ peers) m p alone =
    let (same, alone') = unsent-send_to_peer peer m p alone in
    unsent-send_all peers m (send_to_peer peer m p) alone' ∙ same

unsent-receive_message :
    (draw : Draw) (now : ℕ) (m : GossipMessage) (p : GossipProtocol)
    → p.send_callback ≡ none
    → (receive_message draw now m p).sent ≡ p.sent
unfolding receive_message accept mark_as_seen invoke_handlers
unsent-receive_message draw now m p alone =
    let p' = record p { messages_received = (p.messages_received + 1) % 2 ^ 64 } in
    let p'' = invoke_handlers m (mark_as_seen now m.message_id p') in
    elim (Bool-cases (should_propagate now m p')) [
      | inl fresh ↦
          rw fresh (unsent-send_all (get_random_peers draw p''.fanout p'') (forwarded m) p'' alone)
      | inr stale ↦ rw stale
    ]

propagated_below :
    (now : ℕ) (m : GossipMessage) (p : GossipProtocol)
    → should_propagate now m p ≡ true
    → m.hop_count < 10
unfolding should_propagate has_exceeded_hops
propagated_below now m p h = ground arith

to_each-message :
    (peers : List Bytes) (m : GossipMessage) (i : ℕ) (peer : Bytes) (m' : GossipMessage)
    → get_elem? (to_each peers m) i ≡ some (peer, m')
    → m' ≡ m
to_each-message [] m i peer m' h = absurd (ground (arith, h))
to_each-message (x ∷ xs) m zero peer m' h =
    sym (ap (λ (s : Bytes × GossipMessage). s.1) (some_inj h))
to_each-message (x ∷ xs) m (suc i) peer m' h = to_each-message xs m i peer m' h

-- What a node has newly sent after receive_message is the message with one hop more.
sends_forwarded :
    (draw : Draw) (now : ℕ) (m : GossipMessage) (p : GossipProtocol) (i : ℕ) (peer : Bytes)
    (m' : GossipMessage)
    → length p.sent ≤ i
    → get_elem? (receive_message draw now m p).sent i ≡ some (peer, m')
    → (m' ≡ forwarded m) × (m.hop_count < 10)
sends_forwarded draw now m p i peer m' later sent = elim (Option-cases p.send_callback) [
  | inl alone ↦ absurd (nothing_new (unsent-receive_message draw now m p alone))
  | inr (send, wired) ↦
      let all_sent = sent-receive_message draw now m p send wired in
      elim (Bool-cases (should_propagate now m p)) [
        | inl fresh ↦
            let peers = get_random_peers draw p.fanout p in
            let log : (receive_message draw now m p).sent ≡ p.sent ++ to_each peers (forwarded m) =
              ground (arith, all_sent, fresh) in
            let new =
              sym (get_elem?-append_right p.sent (to_each peers (forwarded m)) i later)
              ∙ ap (λ l. get_elem? l i) (sym log)
              ∙ sent in
            (
              to_each-message peers (forwarded m) (i - length p.sent) peer m' new,
              propagated_below now m p fresh,
            )
        | inr stale ↦ absurd (nothing_new (ground (arith, all_sent, stale)))
      ]
]
  where
    nothing_new : ¬ ((receive_message draw now m p).sent ≡ p.sent)
    nothing_new same =
        let at = get_elem?_bound p.sent i (ap (λ l. get_elem? l i) (sym same) ∙ sent) in omega arith

-- The way of a message: each node that has it, in whatever state, may have sent it on when it received
-- it, and the next node has what was sent.
pub data Travels (m : GossipMessage) : ℕ → GossipMessage → Type 0 where
  starts : Travels m 0 m
  hops :
      {n : ℕ} {m' : GossipMessage}
      → Travels m n m'
      → (draw : Draw) (now : ℕ) (p : GossipProtocol) (i : ℕ) (peer : Bytes) (m'' : GossipMessage)
      → length p.sent ≤ i
      → get_elem? (receive_message draw now m' p).sent i ≡ some (peer, m'')
      → Travels m (suc n) m''

Travels-count :
    {m : GossipMessage} {n : ℕ} {m' : GossipMessage}
    → Travels m n m'
    → m.hop_count ≤ 10
    → (m'.hop_count ≡ m.hop_count + n) × (m'.hop_count ≤ 10)
Travels-count starts h = (omega arith, h)
Travels-count (hops {n} {m'} r draw now p i peer m'' later sent) h =
    let (count, _) = Travels-count r h in
    let (same, below) = sends_forwarded draw now m' p i peer m'' later sent in
    rw same (omega arith, omega arith)

-- Flooding ends: along any way on which each node is handed what receive_message of the one before
-- newly gave to the send callback, whatever the nodes have seen and at whatever times, a message that
-- starts with at most ten hops is sent on at most ten times less the hops that it has, and carries the
-- number of hops that it has made.
pub flood_ends :
    {m : GossipMessage} {n : ℕ} {m' : GossipMessage}
    → Travels m n m'
    → m.hop_count ≤ 10
    → (m'.hop_count ≡ m.hop_count + n) × (m.hop_count + n ≤ 10)
flood_ends r h = let (count, bound) = Travels-count r h in (count, omega arith)

-- How often a peer is in a list.
abbrev pub occurrences : Bytes → List Bytes → ℕ
occurrences peer [] = 0
occurrences peer (x ∷ xs) = (if bytes_eq x peer then 1 else 0) + occurrences peer xs

occurrences-erase_at :
    (peer x : Bytes) (index : ℕ) (xs : List Bytes)
    → get_elem? xs index ≡ some x
    → (occurrences peer (erase_at index xs) + (if bytes_eq x peer then 1 else 0)
        ≡ occurrences peer xs)
      × (length (erase_at index xs) + 1 ≡ length xs)
unfolding erase_at
occurrences-erase_at peer x index [] h = absurd (ground (arith, h))
occurrences-erase_at peer x zero (y ∷ ys) h = ground (arith, h)
occurrences-erase_at peer x (suc index) (y ∷ ys) h =
    ground (arith, occurrences-erase_at peer x index ys h)

in_range : (xs : List Bytes) (i : ℕ) → i < length xs → (x : Bytes) × (get_elem? xs i ≡ some x)
in_range [] i h = absurd (omega arith)
in_range (x ∷ xs) zero h = (x, refl)
in_range (x ∷ xs) (suc i) h = in_range xs i (omega arith)

pick_lem :
    (draw : Draw) (rounds : ℕ) (available : List Bytes) (peer : Bytes)
    → ((i n : ℕ) → 0 < n → draw i n < n)
    → rounds ≤ length available
    → (length (pick draw rounds available) ≡ rounds)
      × (occurrences peer (pick draw rounds available) ≤ occurrences peer available)
unfolding pick
pick_lem draw zero available peer uniform h = (refl, omega arith)
pick_lem draw (suc rounds) available peer uniform h =
    let index = draw rounds (length available) in
    let (x, here) = in_range available index (uniform rounds (length available) (omega arith)) in
    let (count, size) = occurrences-erase_at peer x index available here in
    let (size', count') =
      pick_lem draw rounds (erase_at index available) peer uniform (omega arith) in
    rw (here, pick) (omega arith, omega arith)

-- If the random generator draws below its bound, as it documents, then a message goes to as many peers as
-- the fanout asks and the node has, and to no peer more often than it is in the list of peers.
fanout_peers :
    (draw : Draw) (count : ℕ) (p : GossipProtocol) (peer : Bytes)
    → ((i n : ℕ) → 0 < n → draw i n < n)
    → (length (get_random_peers draw count p) ≡ min count (length p.peers))
      × (occurrences peer (get_random_peers draw count p) ≤ occurrences peer p.peers)
unfolding get_random_peers
fanout_peers draw count p peer uniform =
    pick_lem draw (min count (length p.peers)) p.peers peer uniform (omega arith)

-- Each peer is counted when a message is sent to it.
counted-send_all :
    (peers : List Bytes) (m : GossipMessage) (p : GossipProtocol)
    (send : Bytes → GossipMessage → Bool)
    → p.send_callback ≡ some send
    → ((peer : Bytes) → send peer m ≡ true)
    → p.messages_sent < 2 ^ 64
    → (send_all peers m p).messages_sent ≡ (p.messages_sent + length peers) % 2 ^ 64
unfolding send_all
counted-send_all [] m p send wired delivers small = omega arith
counted-send_all (peer ∷ peers) m p send wired delivers small =
    let p' = send_to_peer peer m p in
    let one : p'.messages_sent ≡ (p.messages_sent + 1) % 2 ^ 64 =
      counted-send_to_peer peer m p send wired (delivers peer) in
    counted-send_all peers m p' send (callback-send_to_peer send peer m p wired) delivers
      (omega arith)
    ∙ omega (arith, one)

-- A broadcast is counted twice: where every peer takes the message, the count of messages sent goes up by
-- two for each peer that the message was sent to.
broadcast_counts_twice :
    (draw : Draw) (now : ℕ) (m : GossipMessage) (p : GossipProtocol)
    (send : Bytes → GossipMessage → Bool)
    → p.send_callback ≡ some send
    → ((peer : Bytes) → send peer m ≡ true)
    → p.messages_sent < 2 ^ 64
    → (broadcast_message draw now m p).messages_sent
      ≡ (p.messages_sent + 2 * length (get_random_peers draw p.fanout p)) % 2 ^ 64
unfolding broadcast_message mark_as_seen get_random_peers
broadcast_counts_twice draw now m p send wired delivers small =
    let peers = get_random_peers draw p.fanout p in
    omega
      (arith, counted-send_all peers m (mark_as_seen now m.message_id p) send wired delivers small)

-- A message from a clock that is ahead, by less than 2^64 - 300 seconds, counts as too old: it is not handled and
-- not sent on.
future_refused :
    (now : ℕ) (m : GossipMessage) (p : GossipProtocol)
    → now < m.timestamp
    → m.timestamp < now + (2 ^ 64 - 300)
    → m.timestamp < 2 ^ 64
    → should_propagate now m p ≡ false
unfolding should_propagate is_too_old
future_refused now m p ahead near small = ground arith
