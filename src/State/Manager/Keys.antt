-- ===== src/State/Manager/Keys.antt =====
-- Key balances.
use cashew.Prelude.{
  ℕ, ◌+◌, ◌-◌, ◌%◌, ◌^◌, ◌<◌, ◌≡◌, ap, ◌∙◌, true, ◌&&◌, Bytes, bytes_eq, bytes_eq_iff,
  bytes_ordered, beq_refl, nat_ordered, some, [], ◌∷◌, arith, Option-cases, inl, inr, if◌then◌else◌,
  ◌==◌, ==_iff, ltb,
}
use cashew.Prelude.Map.{Map, find, find_or, find-put, find_or-put}
use cashew.Keys.KeyType.{KeyType}
use cashew.Ledger.EventType.{kind, key_issued, key_revoked, node_joined}
use cashew.Ledger.Event.{LedgerEvent}
use cashew.Ledger.Payload.{KeyIssuanceData, key_from_bytes}
use cashew.State.Records.{NodeState, new_node}
use cashew.State.Manager.{
  StateManager, update_node, credit, debit, apply_event, apply_key_issued, apply_key_revoked,
}
use cashew.State.Manager.Queries.{
  get_node_key_balance, can_node_post_content, any_key, is_node_active, get_node_reputation,
  get_networks_for_node,
}

-- The balance after a node's record is rewritten.
balance-update_node :
    (id node : Bytes) (type : KeyType) (f : NodeState → NodeState) (s : StateManager)
    → get_node_key_balance node type (update_node id f s) ≡ (
        if bytes_eq id node
        then find_or 0 type (f (find_or new_node id s.nodes)).key_balances
        else get_node_key_balance node type s)
unfolding get_node_key_balance update_node
balance-update_node id node type f s =
    ground (arith, find-put id node (f (find_or new_node id s.nodes)) s.nodes)

balance-find_or :
    (node : Bytes) (type : KeyType) (s : StateManager)
    → find_or 0 type (find_or new_node node s.nodes).key_balances ≡ get_node_key_balance node type s
unfolding get_node_key_balance find_or find
balance-find_or node type s = ground arith

credit_balance :
    (d : KeyIssuanceData) (n : NodeState) (type : KeyType)
    → find_or 0 type (credit d n).key_balances ≡ (
        if d.key_type == type
        then (find_or 0 type n.key_balances + d.count) % 2 ^ 32
        else find_or 0 type n.key_balances)
unfolding credit
credit_balance d n type = ground (
  arith,
  ==_iff d.key_type type,
  find_or-put 0 d.key_type type ((find_or 0 d.key_type n.key_balances + d.count) % 2 ^ 32)
      n.key_balances,
)

-- The source takes away at most what is there.
debit_balance :
    (d : KeyIssuanceData) (n : NodeState) (type : KeyType)
    → find_or 0 type (debit d n).key_balances ≡ (
        if d.key_type == type
        then find_or 0 type n.key_balances - d.count
        else find_or 0 type n.key_balances)
unfolding debit
debit_balance d n type =
    let left : (if ltb d.count (find_or 0 d.key_type n.key_balances)
          then find_or 0 d.key_type n.key_balances - d.count
          else 0)
        ≡ find_or 0 d.key_type n.key_balances - d.count =
      ground arith in
    rw left (
      ground (
        arith,
        ==_iff d.key_type type,
        find_or-put 0 d.key_type type (find_or 0 d.key_type n.key_balances - d.count)
            n.key_balances,
      ))

apply_event_issued :
    (e : LedgerEvent) (d : KeyIssuanceData) (s : StateManager)
    → e.event_type ≡ key_issued
    → key_from_bytes e.payload ≡ some d
    → apply_event e s ≡ update_node e.source_node (credit d) s
unfolding apply_event
apply_event_issued e d s issuing readable = rw (issuing, kind) (rw (readable, apply_key_issued))

apply_event_revoked :
    (e : LedgerEvent) (d : KeyIssuanceData) (s : StateManager)
    → e.event_type ≡ key_revoked
    → key_from_bytes e.payload ≡ some d
    → apply_event e s ≡ update_node e.source_node (debit d) s
unfolding apply_event
apply_event_revoked e d s revoking readable = rw (revoking, kind) (rw (readable, apply_key_revoked))

-- A KEY_ISSUED event whose payload can be read adds its count to its source's balance of its type,
-- modulo 2^32, and changes no other balance.
balance_issued :
    (e : LedgerEvent) (d : KeyIssuanceData) (node : Bytes) (type : KeyType) (s : StateManager)
    → e.event_type ≡ key_issued
    → key_from_bytes e.payload ≡ some d
    → get_node_key_balance node type (apply_event e s) ≡ (
        if bytes_eq e.source_node node && (d.key_type == type)
        then (get_node_key_balance node type s + d.count) % 2 ^ 32
        else get_node_key_balance node type s)
balance_issued e d node type s issuing readable =
    ap (get_node_key_balance node type) (apply_event_issued e d s issuing readable)
    ∙ balance-update_node e.source_node node type (credit d) s
    ∙ ground (
      arith,
      bytes_eq_iff e.source_node node,
      balance-find_or e.source_node type s,
      credit_balance d (find_or new_node e.source_node s.nodes) type,
    )

-- A KEY_REVOKED event whose payload can be read takes its count from its source's balance of its type,
-- down to zero and no further, and changes no other balance.
balance_revoked :
    (e : LedgerEvent) (d : KeyIssuanceData) (node : Bytes) (type : KeyType) (s : StateManager)
    → e.event_type ≡ key_revoked
    → key_from_bytes e.payload ≡ some d
    → get_node_key_balance node type (apply_event e s) ≡ (
        if bytes_eq e.source_node node && (d.key_type == type)
        then get_node_key_balance node type s - d.count
        else get_node_key_balance node type s)
balance_revoked e d node type s revoking readable =
    ap (get_node_key_balance node type) (apply_event_revoked e d s revoking readable)
    ∙ balance-update_node e.source_node node type (debit d) s
    ∙ ground (
      arith,
      bytes_eq_iff e.source_node node,
      balance-find_or e.source_node type s,
      debit_balance d (find_or new_node e.source_node s.nodes) type,
    )

any_key_found : (type : KeyType) (m : Map KeyType ℕ) → 0 < find_or 0 type m → any_key m ≡ true
unfolding find_or find any_key
any_key_found type [] h = absurd (omega arith)
any_key_found type ((t, count) ∷ m) h = ground (arith, any_key_found type m)

-- An active node with a key of any type may post content, and an inactive or unknown one may not.
can_node_post_content_keys :
    (node : Bytes) (type : KeyType) (s : StateManager)
    → 0 < get_node_key_balance node type s
    → can_node_post_content node s ≡ is_node_active node s
unfolding can_node_post_content get_node_key_balance is_node_active
can_node_post_content_keys node type s h = elim (Option-cases (find node s.nodes)) [
  | inl missing ↦ ground (arith, missing)
  | inr (n, here) ↦ ground (arith, here, any_key_found type n.key_balances)
]

-- What NODE_JOINED stores.
abbrev joined_node : LedgerEvent → NodeState
joined_node e = record new_node {
  node_id = some e.source_node;
  joined_at = e.timestamp;
  is_active = true;
}

find-rejoined :
    (e : LedgerEvent) (s : StateManager)
    → e.event_type ≡ node_joined
    → find e.source_node (apply_event e s).nodes ≡ some (joined_node e)
unfolding apply_event
find-rejoined e s joining =
    rw (joining, kind)
      (rw (find-put e.source_node e.source_node (joined_node e) s.nodes, beq_refl e.source_node))

-- A NODE_JOINED event drops all that was known of the node: its balances and its reputation are zero
-- and it lists no network, whatever they were before, and it is active.
pub rejoin_resets :
    (e : LedgerEvent) (type : KeyType) (s : StateManager)
    → e.event_type ≡ node_joined
    → (get_node_key_balance e.source_node type (apply_event e s) ≡ 0)
      × (get_node_reputation e.source_node (apply_event e s) ≡ 0)
      × (get_networks_for_node e.source_node (apply_event e s) ≡ [])
      × (is_node_active e.source_node (apply_event e s) ≡ true)
unfolding get_node_key_balance get_node_reputation get_networks_for_node is_node_active find_or find
rejoin_resets e type s joining =
    let stored = find-rejoined e s joining in
    (
      rw (stored, get_node_key_balance),
      rw (stored, get_node_reputation),
      rw (stored, get_networks_for_node),
      rw (stored, is_node_active),
    )

-- A KEY_ISSUED event whose payload can be read adds its count to its source's balance of its type, modulo
-- 2^32; a KEY_REVOKED event takes it off, down to zero and no further; neither changes another balance.
pub balances_follow :
    (issue revoke : LedgerEvent) (d : KeyIssuanceData) (node : Bytes) (type : KeyType)
    (s : StateManager)
    → issue.event_type ≡ key_issued
    → revoke.event_type ≡ key_revoked
    → key_from_bytes issue.payload ≡ some d
    → key_from_bytes revoke.payload ≡ some d
    → (get_node_key_balance node type (apply_event issue s) ≡ (
        if bytes_eq issue.source_node node && (d.key_type == type)
        then (get_node_key_balance node type s + d.count) % 2 ^ 32
        else get_node_key_balance node type s))
      × (get_node_key_balance node type (apply_event revoke s) ≡ (
          if bytes_eq revoke.source_node node && (d.key_type == type)
          then get_node_key_balance node type s - d.count
          else get_node_key_balance node type s))
balances_follow issue revoke d node type s issuing revoking readable readable' = (
  balance_issued issue d node type s issuing readable,
  balance_revoked revoke d node type s revoking readable',
)
