-- ===== src/Keys/Manager/Moves.antt =====
-- Transfers of keys between nodes.
use cashew.Prelude.{
  ◌≡◌, refl, inl, inr, ◌≢◌, true, false, Bytes, bytes_eq, bytes_eq_iff, bytes_ordered, beq_refl,
  none, some, arith, Option-cases, Bool-cases, if◌then◌else◌,
}
use cashew.Prelude.Map.{find}
use cashew.Prelude.Set.{contains}
use cashew.Crypto.{Crypto}
use cashew.Keys.Key.{Key, key_id}
use cashew.Keys.Transfer.{KeyTransfer}
use cashew.Keys.Manager.Reads.{
  find-add_key, contains-ids_of-add_key, find-remove_key, remove_key_found,
}
use cashew.Keys.Manager.Consistency.{IsConsistent, add_key-IsConsistent, remove_key-IsConsistent}
use cashew.Keys.Manager.{
  KeyManager, ids_of, remove_key, tick_nonce, transferred_key, hand_over, execute_transfer,
}

pub tick_nonce-IsConsistent :
    (crypto : Crypto) (m : KeyManager) → IsConsistent crypto m → IsConsistent crypto (tick_nonce m)
unfolding tick_nonce ids_of
tick_nonce-IsConsistent crypto m v = record { filed = v.filed; owned = v.owned }

module _ (crypto : Crypto) (t : KeyTransfer) (m : KeyManager) (v : IsConsistent crypto m) where
  hand_over-IsConsistent :
      find (key_id crypto (transferred_key t m.next_nonce)) m.keys ≡ none
      → IsConsistent crypto (hand_over crypto t m)
  unfolding hand_over ids_of
  hand_over-IsConsistent absent =
      let w =
        add_key-IsConsistent crypto (tick_nonce m) (tick_nonce-IsConsistent crypto m v)
          (transferred_key t m.next_nonce) absent in
      record { filed = w.filed; owned = w.owned }

find-hand_over :
    (crypto : Crypto) (t : KeyTransfer) (m : KeyManager) (id : Bytes)
    → find (key_id crypto (transferred_key t m.next_nonce)) m.keys ≡ none
    → find id (hand_over crypto t m).keys ≡ (
        if bytes_eq (key_id crypto (transferred_key t m.next_nonce)) id
        then some (transferred_key t m.next_nonce)
        else find id m.keys)
unfolding hand_over
find-hand_over crypto t m id absent =
    find-add_key crypto (tick_nonce m) (transferred_key t m.next_nonce) id absent

listed-hand_over :
    (crypto : Crypto) (t : KeyTransfer) (m : KeyManager)
    → contains
        (key_id crypto (transferred_key t m.next_nonce))
        (ids_of t.to_node (hand_over crypto t m))
      ≡ true
unfolding hand_over ids_of
listed-hand_over crypto t m =
    let k = transferred_key t m.next_nonce in
    rw
      (
        contains-ids_of-add_key crypto (tick_nonce m) k t.to_node (key_id crypto k),
        beq_refl t.to_node,
        beq_refl (key_id crypto k),
      )
      (ground (arith, Bool-cases (contains (key_id crypto k) (ids_of t.to_node (tick_nonce m)))))

-- A transfer that names a missing key, or a key that its sender does not own, changes nothing.
execute_transfer_refused :
    (crypto : Crypto) (t : KeyTransfer) (m : KeyManager)
    → ((k : Key) → find t.key_id m.keys ≡ some k → k.owner ≢ t.from_node)
    → execute_transfer crypto t m ≡ (m, false)
unfolding execute_transfer
execute_transfer_refused crypto t m bad = elim (Option-cases (find t.key_id m.keys)) [
  | inl missing ↦ rw (missing, execute_transfer)
  | inr (k, found) ↦ elim (Bool-cases (bytes_eq k.owner t.from_node)) [
    | inl own ↦ absurd (bad k found ((bytes_eq_iff k.owner t.from_node).0 own))
    | inr other ↦ rw (found, execute_transfer) (rw other)
  ]
]

execute_transfer_done :
    (crypto : Crypto) (t : KeyTransfer) (m : KeyManager) (k : Key)
    → find t.key_id m.keys ≡ some k
    → k.owner ≡ t.from_node
    → execute_transfer crypto t m ≡ (hand_over crypto t (remove_key t.key_id m).0, true)
unfolding execute_transfer
execute_transfer_done crypto t m k found own =
    rw (found, execute_transfer)
      (rw ((bytes_eq_iff k.owner t.from_node).1 own, remove_key_found m t.key_id k found))

-- remove_key leaves the nonce counter alone.
next_nonce-remove_key :
    (m : KeyManager) (id : Bytes) → (remove_key id m).0.next_nonce ≡ m.next_nonce
unfolding remove_key
next_nonce-remove_key m id = ground arith

-- In a manager whose table and index agree, a transfer of a stored key by its owner succeeds, if the
-- table lacks the id of the key that it issues: the old id is gone, the new id, which the recipient's
-- index lists, holds a key of the record's type, what stands under any other id stays, and the table
-- and the index still agree.
pub execute_transfer_moves :
    (crypto : Crypto) (t : KeyTransfer) (m : KeyManager) (k : Key) (id : Bytes)
    → IsConsistent crypto m
    → find t.key_id m.keys ≡ some k
    → k.owner ≡ t.from_node
    → find (key_id crypto (transferred_key t m.next_nonce)) m.keys ≡ none
    → ((execute_transfer crypto t m).1 ≡ true)
      × IsConsistent crypto (execute_transfer crypto t m).0
      × (find id (execute_transfer crypto t m).0.keys ≡ (
          if bytes_eq (key_id crypto (transferred_key t m.next_nonce)) id
          then some (transferred_key t m.next_nonce)
          else if bytes_eq t.key_id id
          then none
          else find id m.keys))
      × (contains
            (key_id crypto (transferred_key t m.next_nonce))
            (ids_of t.to_node (execute_transfer crypto t m).0)
          ≡ true)
execute_transfer_moves crypto t m k id v found own absent =
    let m' = (remove_key t.key_id m).0 in
    let e : m'.next_nonce ≡ m.next_nonce = next_nonce-remove_key m t.key_id in
    let gone : find (key_id crypto (transferred_key t m'.next_nonce)) m'.keys ≡ none =
      rw (e, find-remove_key m t.key_id k found (key_id crypto (transferred_key t m.next_nonce)))
        (ground (arith, absent)) in
    rw (execute_transfer_done crypto t m k found own) (
      refl,
      hand_over-IsConsistent crypto t m' (remove_key-IsConsistent crypto m v t.key_id) gone,
      rw (find-hand_over crypto t m' id gone, e, find-remove_key m t.key_id k found id),
      rw e at (listed-hand_over crypto t m'),
    )
