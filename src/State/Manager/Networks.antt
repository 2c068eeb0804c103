-- ===== src/State/Manager/Networks.antt =====
-- Networks: their members and roles.
use mathlib.Core.Path.{subst}
use cashew.Prelude.{
  ◌≡◌, refl, Bool, true, false, Bytes, bytes_eq, bytes_ordered, Option, none, some, List, [], ◌∷◌,
  length, take, ltb, arith, Bool-cases, Option-cases, inl, inr,
}
use cashew.Prelude.Map.{find, put, find_or, find-put, find-erase}
use cashew.Prelude.Set.{contains, contains-insert, contains-remove}
use cashew.Ledger.EventType.{Kind, kind, joined, created, added, removed, pow, postake, other}
use cashew.Ledger.Event.{LedgerEvent}
use cashew.Ledger.Payload.{NetworkMembershipData, membership_from_bytes}
use cashew.State.Records.{NodeState, NetworkState, new_network, has_member}
use cashew.State.Manager.{
  StateManager, update_node, alter_node, alter_network, enroll, expel, add_member, remove_member,
  apply_kind, apply_event, apply_events, blank, apply_node_joined, apply_node_left,
  apply_key_issued, apply_key_revoked, apply_network_created, apply_network_member_added,
  apply_network_member_removed, apply_thing_replicated, apply_thing_removed, add_host, remove_host,
  apply_reputation_updated, apply_pow_solution, apply_postake_contribution,
}

abbrev pub is_some {ℓ} : {A : Type ℓ} → Option A → Bool
is_some none = false
is_some (some a) = true

-- The members of a network are exactly the nodes that have a role in it.
abbrev IsNetwork : NetworkState → Type 0
IsNetwork w = (node : Bytes) → contains node w.members ≡ is_some (find node w.member_roles)

enroll-IsNetwork :
    (d : NetworkMembershipData) (w : NetworkState) → IsNetwork w → IsNetwork (enroll d w)
unfolding enroll
enroll-IsNetwork d w v node = ground (
  arith,
  contains-insert d.member_node node w.members,
  find-put d.member_node node d.role w.member_roles,
  v node,
)

expel-IsNetwork :
    (d : NetworkMembershipData) (w : NetworkState) → IsNetwork w → IsNetwork (expel d w)
unfolding expel
expel-IsNetwork d w v node = ground (
  arith,
  contains-remove d.member_node node w.members,
  find-erase d.member_node node w.member_roles,
  v node,
)

new_network-IsNetwork : IsNetwork new_network
unfolding contains find
new_network-IsNetwork node = refl

abbrev AllNetworks : StateManager → Type 0
AllNetworks s =
    (network : Bytes) (w : NetworkState) → find network s.networks ≡ some w → IsNetwork w

networks-alter_node :
    (id : Bytes) (f : NodeState → NodeState) (s : StateManager)
    → (alter_node id f s).networks ≡ s.networks
unfolding alter_node
networks-alter_node id f s = ground arith

abbrev IsNetworkKind : Kind → Type 0
IsNetworkKind created = Unit {0}
IsNetworkKind added = Unit {0}
IsNetworkKind removed = Unit {0}
IsNetworkKind _ = ⊥

networks-apply_kind :
    (k : Kind) (e : LedgerEvent) (s : StateManager)
    → ¬ IsNetworkKind k
    → (apply_kind k e s).networks ≡ s.networks
unfolding apply_kind apply_node_joined apply_node_left apply_key_issued apply_key_revoked
    apply_thing_replicated apply_thing_removed add_host remove_host alter_node update_node
    apply_reputation_updated apply_pow_solution apply_postake_contribution
networks-apply_kind created e s h = absurd (h tt)
networks-apply_kind added e s h = absurd (h tt)
networks-apply_kind removed e s h = absurd (h tt)
networks-apply_kind joined e s h = refl
networks-apply_kind other e s h = refl
networks-apply_kind pow e s h = refl
networks-apply_kind postake e s h = refl
networks-apply_kind _ e s h = ground arith

same-AllNetworks : (s s' : StateManager) → s'.networks ≡ s.networks → AllNetworks s → AllNetworks s'
same-AllNetworks s s' e v c t h = v c t (rw e at h)

put-AllNetworks :
    (s s' : StateManager) (network : Bytes) (w : NetworkState)
    → s'.networks ≡ put network w s.networks
    → IsNetwork w
    → AllNetworks s
    → AllNetworks s'
put-AllNetworks s s' network w e new v c x h = elim (Bool-cases (bytes_eq network c)) [
  | inl same ↦
      let hit : w ≡ x = ground (arith, find-put network c w s.networks, e, h, same) in
      subst IsNetwork hit new
  | inr other_one ↦ v c x (ground (arith, find-put network c w s.networks, e, h, other_one))
]

found-IsNetwork :
    (network : Bytes) (s : StateManager)
    → AllNetworks s
    → IsNetwork (find_or new_network network s.networks)
unfolding find_or
found-IsNetwork network s v = elim (Option-cases (find network s.networks)) [
  | inl missing ↦ rw (missing, find_or) new_network-IsNetwork
  | inr (w, here) ↦ rw (here, find_or) (v network w here)
]

-- What NETWORK_CREATED stores.
abbrev created_network : LedgerEvent → NetworkState
created_network e = record new_network {
  network_id = some (take 32 e.payload);
  created_at = e.timestamp;
  is_active = true;
}

created-AllNetworks :
    (e : LedgerEvent) (s : StateManager) → AllNetworks s → AllNetworks (apply_network_created e s)
unfolding apply_network_created
created-AllNetworks e s v = elim (Bool-cases (ltb (length e.payload) 32)) [
  | inl short ↦ rw short v
  | inr long ↦ rw long (
      put-AllNetworks s
        (record s { networks = put (take 32 e.payload) (created_network e) s.networks })
        (take 32 e.payload) (created_network e) refl new_network-IsNetwork v)
]

added-AllNetworks :
    (e : LedgerEvent) (s : StateManager)
    → AllNetworks s
    → AllNetworks (apply_network_member_added e s)
unfolding apply_network_member_added
added-AllNetworks e s v = elim (Option-cases (membership_from_bytes e.payload)) [
  | inl bad ↦ rw (bad, apply_network_member_added) v
  | inr (d, good) ↦
      rw (good, apply_network_member_added)
        (unfold add_member update_node in
          put-AllNetworks s (add_member d s) d.network_id
            (enroll d (find_or new_network d.network_id s.networks)) refl
            (enroll-IsNetwork d (find_or new_network d.network_id s.networks)
              (found-IsNetwork d.network_id s v))
            v)
]

alter_network-AllNetworks :
    (d : NetworkMembershipData) (s : StateManager)
    → AllNetworks s
    → AllNetworks (alter_network d.network_id (expel d) s)
unfolding alter_network
alter_network-AllNetworks d s v = elim (Option-cases (find d.network_id s.networks)) [
  | inl missing ↦ rw (missing, alter_network) v
  | inr (w, here) ↦
      rw (here, alter_network)
        (put-AllNetworks s (record s { networks = put d.network_id (expel d w) s.networks })
          d.network_id (expel d w) refl (expel-IsNetwork d w (v d.network_id w here)) v)
]

removed-AllNetworks :
    (e : LedgerEvent) (s : StateManager)
    → AllNetworks s
    → AllNetworks (apply_network_member_removed e s)
unfolding apply_network_member_removed
removed-AllNetworks e s v = elim (Option-cases (membership_from_bytes e.payload)) [
  | inl bad ↦ rw (bad, apply_network_member_removed) v
  | inr (d, good) ↦
      rw (good, apply_network_member_removed)
        (unfold remove_member in
          same-AllNetworks (alter_network d.network_id (expel d) s) (remove_member d s)
            (networks-alter_node d.member_node _ (alter_network d.network_id (expel d) s))
            (alter_network-AllNetworks d s v))
]

apply_kind-AllNetworks :
    (k : Kind) (e : LedgerEvent) (s : StateManager) → AllNetworks s → AllNetworks (apply_kind k e s)
unfolding apply_kind
apply_kind-AllNetworks created e s v = created-AllNetworks e s v
apply_kind-AllNetworks added e s v = added-AllNetworks e s v
apply_kind-AllNetworks removed e s v = removed-AllNetworks e s v
apply_kind-AllNetworks k e s v =
    same-AllNetworks s (apply_kind k e s) (networks-apply_kind k e s (λ h. h)) v

apply_events-AllNetworks :
    (es : List LedgerEvent) (s : StateManager) → AllNetworks s → AllNetworks (apply_events es s)
unfolding apply_events apply_event
apply_events-AllNetworks [] s v = v
apply_events-AllNetworks (e ∷ es) s v =
    apply_events-AllNetworks es (apply_event e s) (apply_kind-AllNetworks (kind e.event_type) e s v)

blank-AllNetworks : AllNetworks blank
unfolding find
blank-AllNetworks c t h = absurd (ground (arith, h))

-- Whatever events a node applies, the members of each network are exactly the nodes that have a role
-- in it.
pub members_have_roles :
    (es : List LedgerEvent) (network node : Bytes) (w : NetworkState)
    → find network (apply_events es blank).networks ≡ some w
    → has_member node w ≡ is_some (find node w.member_roles)
unfolding has_member
members_have_roles es network node w h =
    apply_events-AllNetworks es blank blank-AllNetworks network w h node
