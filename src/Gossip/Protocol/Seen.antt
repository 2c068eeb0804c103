-- ===== src/Gossip/Protocol/Seen.antt =====
-- The cache of seen messages: its size, and that a message is handled once.
use mathlib.Core.Path.{subst}
use cashew.Prelude.{
  ℕ, suc, ◌+◌, ◌%◌, ◌^◌, ◌<◌, ◌≤◌, ◌≡◌, refl, ◌∙◌, true, Bytes, bytes_ordered, beq_refl, List, [],
  ◌∷◌, ◌++◌, length, length-append, length-drop, drop, append_assoc, leb, arith, Bool-cases, inl,
  inr, if◌then◌else◌,
}
use cashew.Gossip.Message.{GossipMessage}
use cashew.Gossip.Protocol.{
  GossipProtocol, SeenMessage, Draw, seen_in, has_seen_message, should_propagate, mark_as_seen,
  invoke_handlers, get_random_peers, send_to_peer, send_all, forwarded, accept, receive_message,
  broadcast_message, add_peer, remove_peer,
}

-- Two states with the same cache of seen messages.
abbrev SameSeen : GossipProtocol → GossipProtocol → Type 0
SameSeen p q = (q.seen_messages ≡ p.seen_messages) × (q.max_seen_messages ≡ p.max_seen_messages)

send_to_peer-SameSeen :
    (peer : Bytes) (m : GossipMessage) (p : GossipProtocol) → SameSeen p (send_to_peer peer m p)
unfolding send_to_peer
send_to_peer-SameSeen peer m p = ground arith

send_all-SameSeen :
    (peers : List Bytes) (m : GossipMessage) (p : GossipProtocol) → SameSeen p (send_all peers m p)
unfolding send_all
send_all-SameSeen [] m p = (refl, refl)
send_all-SameSeen (peer ∷ peers) m p =
    let (s, t) = send_all-SameSeen peers m (send_to_peer peer m p) in
    let (s', t') = send_to_peer-SameSeen peer m p in (s ∙ s', t ∙ t')

-- What the cache is after a message is accepted or broadcast.
accept-SameSeen :
    (draw : Draw) (now : ℕ) (m : GossipMessage) (p : GossipProtocol)
    → SameSeen (mark_as_seen now m.message_id p) (accept draw now m p)
unfolding accept invoke_handlers
accept-SameSeen draw now m p =
    send_all-SameSeen
      (get_random_peers draw p.fanout (invoke_handlers m (mark_as_seen now m.message_id p)))
      (forwarded m) (invoke_handlers m (mark_as_seen now m.message_id p))

broadcast-SameSeen :
    (draw : Draw) (now : ℕ) (m : GossipMessage) (p : GossipProtocol)
    → SameSeen (mark_as_seen now m.message_id p) (broadcast_message draw now m p)
unfolding broadcast_message
broadcast-SameSeen draw now m p =
    let p' = mark_as_seen now m.message_id p in
    send_all-SameSeen (get_random_peers draw p'.fanout p') m p'

-- What a node does between two messages, and with them.
pub data Call : Type 0 where
  receives : Draw → ℕ → GossipMessage → Call
  broadcasts : Draw → ℕ → GossipMessage → Call
  meets : Bytes → Call
  leaves : Bytes → Call

unfoldable pub step : Call → GossipProtocol → GossipProtocol
step (receives draw now m) p = receive_message draw now m p
step (broadcasts draw now m) p = broadcast_message draw now m p
step (meets peer) p = add_peer peer p
step (leaves peer) p = remove_peer peer p

unfoldable pub run : List Call → GossipProtocol → GossipProtocol
unfolding step
run [] p = p
run (c ∷ cs) p = run cs (step c p)

-- A step leaves the cache alone, or marks one message.
data Marks (p q : GossipProtocol) : Type 0 where
  leaves_cache : SameSeen p q → Marks p q
  marks : (now : ℕ) (id : Bytes) → SameSeen (mark_as_seen now id p) q → Marks p q

receive-Marks :
    (draw : Draw) (now : ℕ) (m : GossipMessage) (p : GossipProtocol)
    → Marks p (receive_message draw now m p)
unfolding receive_message mark_as_seen
receive-Marks draw now m p =
    let p' = record p { messages_received = (p.messages_received + 1) % 2 ^ 64 } in
    elim (Bool-cases (should_propagate now m p')) [
      | inl fresh ↦ rw fresh (marks now m.message_id (accept-SameSeen draw now m p'))
      | inr stale ↦ rw stale (leaves_cache (refl, refl))
    ]

step-Marks : (c : Call) (p : GossipProtocol) → Marks p (step c p)
unfolding step add_peer remove_peer
step-Marks (receives draw now m) p = receive-Marks draw now m p
step-Marks (broadcasts draw now m) p = marks now m.message_id (broadcast-SameSeen draw now m p)
step-Marks (meets peer) p = leaves_cache (ground arith)
step-Marks (leaves peer) p = leaves_cache (refl, refl)

-- The cache is within its limit.
abbrev Bounded : GossipProtocol → Type 0
Bounded p = length p.seen_messages ≤ p.max_seen_messages

mark_as_seen-Bounded :
    (now : ℕ) (id : Bytes) (p : GossipProtocol)
    → 0 < p.max_seen_messages
    → Bounded p
    → Bounded (mark_as_seen now id p)
unfolding mark_as_seen
mark_as_seen-Bounded now id p some_room h =
    let s : SeenMessage = record { message_id = id; timestamp = now } in
    elim (Bool-cases (leb p.max_seen_messages (length p.seen_messages))) [
      | inl full ↦ rw full (
          omega (
            arith,
            h,
            some_room,
            length-append (drop 1 p.seen_messages) (s ∷ []),
            length-drop 1 p.seen_messages,
          ))
      | inr free ↦ rw free (ground (arith, free, length-append p.seen_messages (s ∷ [])))
    ]

mark_as_seen-max :
    (now : ℕ) (id : Bytes) (p : GossipProtocol)
    → (mark_as_seen now id p).max_seen_messages ≡ p.max_seen_messages
unfolding mark_as_seen
mark_as_seen-max now id p = refl

Marks-Bounded :
    (p q : GossipProtocol)
    → Marks p q
    → 0 < p.max_seen_messages
    → Bounded p
    → (0 < q.max_seen_messages) × Bounded q
Marks-Bounded p q (leaves_cache (s, t)) some_room h = rw (s, t) (some_room, h)
Marks-Bounded p q (marks now id (s, t)) some_room h =
    rw (s, t) (rw (mark_as_seen-max now id p) some_room, mark_as_seen-Bounded now id p some_room h)

run-Bounded :
    (cs : List Call) (p : GossipProtocol) → 0 < p.max_seen_messages → Bounded p → Bounded (run cs p)
unfolding run
run-Bounded [] p some_room h = h
run-Bounded (c ∷ cs) p some_room h =
    let (some_room', h') = Marks-Bounded p (step c p) (step-Marks c p) some_room h in
    run-Bounded cs (step c p) some_room' h'

-- From a state whose cache of seen messages is within its limit, and whose limit is not zero, no sequence
-- of messages received and broadcast and peers met and left takes the cache over the limit.
seen_bounded :
    (cs : List Call) (p : GossipProtocol)
    → 0 < p.max_seen_messages
    → length p.seen_messages ≤ p.max_seen_messages
    → length (run cs p).seen_messages ≤ (run cs p).max_seen_messages
seen_bounded cs p some_room h = run-Bounded cs p some_room h

-- An id is in the cache, and stays there while fewer than `left` further messages are marked.
abbrev Recent : Bytes → ℕ → GossipProtocol → Type 0
Recent id left p =
    (before : List SeenMessage) × (s : SeenMessage) × (after : List SeenMessage) × (p.seen_messages
      ≡ before ++ s ∷ after)
    × (s.message_id ≡ id)
    × (length after + left < p.max_seen_messages)

-- What marking keeps of a cache that is split at an entry which is not about to go.
kept_split :
    (max : ℕ) (before : List SeenMessage) (s : SeenMessage) (after : List SeenMessage)
    → length after + 1 < max
    → (before' : List SeenMessage) × ((if leb max (length (before ++ s ∷ after))
          then drop 1 (before ++ s ∷ after)
          else before ++ s ∷ after)
        ≡ before' ++ s ∷ after)
kept_split max [] s after h = ([], ground arith)
kept_split max (x ∷ before) s after h =
    elim (Bool-cases (leb max (length (x ∷ before ++ s ∷ after)))) [
      | inl full ↦ (before, rw full)
      | inr free ↦ (x ∷ before, rw free)
    ]

mark_as_seen-Recent :
    (now : ℕ) (other id : Bytes) (left : ℕ) (p : GossipProtocol)
    → Recent id (suc left) p
    → Recent id left (mark_as_seen now other p)
unfolding mark_as_seen
mark_as_seen-Recent now other id left p (before, s, after, split, named, room) =
    let new : SeenMessage = record { message_id = other; timestamp = now } in
    let (before', kept) = kept_split p.max_seen_messages before s after (omega arith) in
    (
      before',
      s,
      after ++ new ∷ [],
      rw (split, kept) (append_assoc before' (s ∷ after) (new ∷ [])),
      named,
      omega (arith, length-append after (new ∷ [])),
    )

weaken-Recent :
    (id : Bytes) (left : ℕ) (p : GossipProtocol) → Recent id (suc left) p → Recent id left p
weaken-Recent id left p (before, s, after, split, named, room) =
    (before, s, after, split, named, omega arith)

same-Recent :
    (id : Bytes) (left : ℕ) (p q : GossipProtocol)
    → SameSeen p q
    → Recent id left p
    → Recent id left q
same-Recent id left p q (same, limit) (before, s, after, split, named, room) =
    (before, s, after, same ∙ split, named, rw limit room)

step-Recent :
    (id : Bytes) (left : ℕ) (p q : GossipProtocol)
    → Marks p q
    → Recent id (suc left) p
    → Recent id left q
step-Recent id left p q (leaves_cache same) r =
    same-Recent id left p q same (weaken-Recent id left p r)
step-Recent id left p q (marks now other same) r =
    same-Recent id left (mark_as_seen now other p) q same
      (mark_as_seen-Recent now other id left p r)

run-Recent :
    (id : Bytes) (cs : List Call) (p : GossipProtocol)
    → Recent id (length cs) p
    → Recent id 0 (run cs p)
unfolding run
run-Recent id [] p r = r
run-Recent id (c ∷ cs) p r =
    run-Recent id cs (step c p) (step-Recent id (length cs) p (step c p) (step-Marks c p) r)

seen_in-middle :
    (before : List SeenMessage) (s : SeenMessage) (after : List SeenMessage)
    → seen_in s.message_id (before ++ s ∷ after) ≡ true
unfolding seen_in
seen_in-middle [] s after = ground (arith, beq_refl s.message_id)
seen_in-middle (x ∷ before) s after = ground (arith, seen_in-middle before s after)

Recent-seen :
    (id : Bytes) (left : ℕ) (p : GossipProtocol) → Recent id left p → has_seen_message id p ≡ true
unfolding has_seen_message
Recent-seen id left p (before, s, after, split, named, room) =
    subst (λ i. seen_in i p.seen_messages ≡ true) named (rw split (seen_in-middle before s after))

marked-Recent :
    (now : ℕ) (id : Bytes) (left : ℕ) (p : GossipProtocol)
    → left < p.max_seen_messages
    → Recent id left (mark_as_seen now id p)
unfolding mark_as_seen
marked-Recent now id left p h =
    (_, record { message_id = id; timestamp = now }, [], refl, refl, omega arith)

accepted-Recent :
    (draw : Draw) (now : ℕ) (m : GossipMessage) (p : GossipProtocol) (left : ℕ)
    → should_propagate now m p ≡ true
    → left < p.max_seen_messages
    → Recent m.message_id left (receive_message draw now m p)
unfolding receive_message should_propagate has_seen_message
accepted-Recent draw now m p left fresh room =
    let p' = record p { messages_received = (p.messages_received + 1) % 2 ^ 64 } in
    rw fresh (
      same-Recent m.message_id left (mark_as_seen now m.message_id p') (accept draw now m p')
        (accept-SameSeen draw now m p') (marked-Recent now m.message_id left p' room))

refused :
    (draw : Draw) (now : ℕ) (m : GossipMessage) (p : GossipProtocol)
    → has_seen_message m.message_id p ≡ true
    → receive_message draw now m p
      ≡ record p { messages_received = (p.messages_received + 1) % 2 ^ 64 }
unfolding receive_message should_propagate has_seen_message
refused draw now m p seen = rw seen

-- A message that was accepted is handled and forwarded once: if fewer calls than the limit of the cache
-- come in between, and no cleanup, then a message with its id changes nothing but the count of
-- messages received.
pub handled_once :
    (draw draw' : Draw) (now later : ℕ) (m m' : GossipMessage) (cs : List Call) (p : GossipProtocol)
    → should_propagate now m p ≡ true
    → m'.message_id ≡ m.message_id
    → length cs < p.max_seen_messages
    → receive_message draw' later m' (run cs (receive_message draw now m p))
      ≡ record (run cs (receive_message draw now m p)) {
        messages_received =
            ((run cs (receive_message draw now m p)).messages_received + 1) % 2 ^ 64;
      }
handled_once draw draw' now later m m' cs p fresh same room =
    let q = run cs (receive_message draw now m p) in
    let r =
      run-Recent m.message_id cs (receive_message draw now m p)
        (accepted-Recent draw now m p (length cs) fresh room) in
    refused draw' later m' q (rw same (Recent-seen m.message_id 0 q r))
