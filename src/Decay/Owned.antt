-- ===== src/Decay/Owned.antt =====
-- Keys decay one at a time, and only those that an active node holds and whose policy has an age limit.
use cashew.Prelude.{
  ℕ, ◌≡◌, refl, ap, Bool, true, false, not, ◌&&◌, ◌||◌, Bytes, bytes_eq, bytes_eq_iff,
  bytes_ordered, nat_ordered, none, some, List, [], ◌∷◌, ◌++◌, All, ◌==◌, arith, Bool-cases,
  Option-cases, inl, inr,
}
use mathlib.Core.Path.{subst}
use cashew.Prelude.Map.{Map, find, find_or}
use cashew.Keys.KeyType.{KeyType}
use cashew.State.Records.{NodeState}
use cashew.State.Manager.{StateManager}
use cashew.State.Manager.Queries.{get_all_active_nodes}
use cashew.Decay.Policy.{DecayReason, KeyDecayEvent, DecayPolicy, new_policy}
use cashew.Decay.{DecayScheduler, get_key_policy, should_decay_key, update_node_activity_from_state}
use cashew.Decay.Epoch.{key_events, id_of, tracked, scan_nodes, check_key_decay}

-- A positive balance of the type.
abbrev positive_balance : KeyType → Map KeyType ℕ → Bool
positive_balance type [] = false
positive_balance type ((t, count) ∷ balances) =
    ((t == type) && not (count == 0)) || positive_balance type balances

-- One of the nodes has the id and a positive balance.
abbrev holds_key : Bytes → Bytes → KeyType → List NodeState → Bool
holds_key blank node type [] = false
holds_key blank node type (n ∷ nodes) =
    (bytes_eq (id_of blank n) node && positive_balance type n.key_balances)
    || holds_key blank node type nodes

-- An event of one key, of a type that can decay and a node among the nodes.
abbrev pub Owned : Bytes → List NodeState → DecayScheduler → KeyDecayEvent → Type 0
Owned blank nodes d e =
    (e.keys_decayed ≡ 1)
    × (((get_key_policy e.key_type d).max_age_seconds == 0) ≡ false)
    × (holds_key blank e.node_id e.key_type nodes ≡ true)

decaying :
    (now : ℕ) (node : Bytes) (type : KeyType) (policy : DecayPolicy) (d : DecayScheduler)
    (reason : DecayReason)
    → should_decay_key now node type policy d ≡ some reason
    → (policy.max_age_seconds == 0) ≡ false
unfolding should_decay_key
decaying now node type policy d reason h = elim (Bool-cases (policy.max_age_seconds == 0)) [
  | inl never ↦
      let stays : should_decay_key now node type policy d ≡ none =
        rw (never, should_decay_key) refl in
      absurd (cc)
  | inr old ↦ old
]

All-map :
    {A : Type 0} (P Q : A → Type 0) (xs : List A) → ((a : A) → P a → Q a) → All P xs → All Q xs
All-map P Q [] f h = tt
All-map P Q (x ∷ xs) f (hx, h) = (f x hx, All-map P Q xs f h)

All-append : {A : Type 0} (P : A → Type 0) (xs ys : List A) → All P xs → All P ys → All P (xs ++ ys)
All-append P [] ys h k = k
All-append P (x ∷ xs) ys (hx, h) k = (hx, All-append P xs ys h k)

key_event : ℕ → ℕ → Bytes → KeyType → DecayReason → KeyDecayEvent
key_event now epoch node type reason = record {
  node_id = node;
  key_type = type;
  keys_decayed = 1;
  reason = reason;
  decayed_at = now;
  epoch = epoch;
}

-- The events of one more balance.
key_events_step :
    (P : KeyDecayEvent → Type 0) (now epoch : ℕ) (node : Bytes) (d : DecayScheduler)
    (type : KeyType) (count : ℕ) (balances : Map KeyType ℕ)
    → ((count == 0) ≡ false
        → ((get_key_policy type d).max_age_seconds == 0) ≡ false
        → (reason : DecayReason) → P (key_event now epoch node type reason))
    → All P (key_events now epoch node d balances)
    → All P (key_events now epoch node d ((type, count) ∷ balances))
unfolding key_events key_event
key_events_step P now epoch node d type count balances this later = elim (Bool-cases (count == 0)) [
  | inl empty ↦ rw (empty, key_events) later
  | inr some_keys ↦ elim (Option-cases (should_decay_key now node type (get_key_policy type d) d)) [
    | inl stays ↦ rw (some_keys, stays, key_events) later
    | inr (reason, decays) ↦
        rw (some_keys, decays, key_events)
          (
            this some_keys (decaying now node type (get_key_policy type d) d reason decays) reason,
            later,
          )
  ]
]

-- What an event says of the balances of its node.
abbrev Held : Bytes → DecayScheduler → Map KeyType ℕ → KeyDecayEvent → Type 0
Held node d balances e =
    (e.keys_decayed ≡ 1)
    × (((get_key_policy e.key_type d).max_age_seconds == 0) ≡ false)
    × (e.node_id ≡ node)
    × (positive_balance e.key_type balances ≡ true)

key_events-Held :
    (now epoch : ℕ) (node : Bytes) (d : DecayScheduler) (balances : Map KeyType ℕ)
    → All (Held node d balances) (key_events now epoch node d balances)
unfolding key_events key_event
key_events-Held now epoch node d [] = tt
key_events-Held now epoch node d ((type, count) ∷ balances) =
    key_events_step (Held node d ((type, count) ∷ balances)) now epoch node d type count balances
      (λ some_keys old reason. (refl, old, refl, ground (arith, some_keys)))
      (All-map (Held node d balances) (Held node d ((type, count) ∷ balances))
        (key_events now epoch node d balances)
        (λ e (one, old, same, held). (one, old, same, ground (arith, held)))
        (key_events-Held now epoch node d balances))

-- Noting a node changes no policy.
tracked-policies :
    (now : ℕ) (s : StateManager) (node : Bytes) (d : DecayScheduler)
    → (tracked now s node d).key_policies ≡ d.key_policies
unfolding tracked update_node_activity_from_state
tracked-policies now s node d = elim (Option-cases (find node d.node_activities)) [
  | inl new ↦ rw (new, tracked) refl
  | inr (a, known) ↦ rw (known, tracked) refl
]

policy_same :
    (type : KeyType) (d d' : DecayScheduler)
    → d'.key_policies ≡ d.key_policies
    → get_key_policy type d' ≡ get_key_policy type d
unfolding get_key_policy
policy_same type d d' same = ap (find_or new_policy type) same

scan_nodes-Owned :
    (now epoch : ℕ) (blank : Bytes) (s : StateManager) (nodes : List NodeState) (d : DecayScheduler)
    → All (Owned blank nodes d) ((scan_nodes now epoch blank s nodes d).1)
unfolding scan_nodes
scan_nodes-Owned now epoch blank s [] d = tt
scan_nodes-Owned now epoch blank s (n ∷ nodes) d =
    let node = id_of blank n in
    let d' = tracked now s node d in
    let same = tracked-policies now s node d in
    All-append (Owned blank (n ∷ nodes) d) (key_events now epoch node d' n.key_balances)
      ((scan_nodes now epoch blank s nodes d').1)
      (All-map (Held node d' n.key_balances) (Owned blank (n ∷ nodes) d)
        (key_events now epoch node d' n.key_balances)
        (λ e (one, old, its, held). (
          one,
          subst (λ (policy : DecayPolicy). (policy.max_age_seconds == 0) ≡ false)
              (policy_same e.key_type d d' same) old,
          ground (arith, its, held, bytes_eq_iff (id_of blank n) e.node_id),
        ))
        (key_events-Held now epoch node d' n.key_balances))
      (All-map (Owned blank nodes d') (Owned blank (n ∷ nodes) d)
        ((scan_nodes now epoch blank s nodes d').1)
        (λ e (one, old, held). (
          one,
          subst (λ (policy : DecayPolicy). (policy.max_age_seconds == 0) ≡ false)
              (policy_same e.key_type d d' same) old,
          ground (arith, held),
        ))
        (scan_nodes-Owned now epoch blank s nodes d'))

-- Every event that check_key_decay reports is of one key, of a type whose policy has an age limit,
-- and of an active node of the state that has a positive balance of that type.
pub check_key_decay-Owned :
    (now epoch : ℕ) (blank : Bytes) (s : StateManager) (d : DecayScheduler)
    → All (Owned blank (get_all_active_nodes s) d) ((check_key_decay now epoch blank s d).1)
unfolding check_key_decay
check_key_decay-Owned now epoch blank s d =
    scan_nodes-Owned now epoch blank s (get_all_active_nodes s) d
