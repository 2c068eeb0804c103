-- ===== src/Keys/Manager/Consistency.antt =====
-- The key table and the index by owner agree.
use cashew.Prelude.{
  ◌≡◌, true, false, Bytes, bytes_eq, bytes_eq_iff, bytes_ordered, none, some, arith, Option-cases,
  Bool-cases, inl, inr,
}
use cashew.Prelude.Map.{find, find_or}
use cashew.Prelude.Set.{contains}
use cashew.Crypto.{Crypto}
use cashew.Keys.Key.{Key, key_id}
use cashew.Keys.Manager.Reads.{
  find-add_key, contains-ids_of-add_key, remove_key_missing, find-remove_key,
  contains-ids_of-remove_key,
}
use cashew.Keys.Manager.{KeyManager, ids_of, add_key, remove_key, init}

pub record IsConsistent (crypto : Crypto) (m : KeyManager) : Type 0 where
  -- a stored key stands under its id, and its owner's index lists it
  pub filed :
      (id : Bytes) (k : Key)
      → find id m.keys ≡ some k
      → (key_id crypto k ≡ id) × (contains id (ids_of k.owner m) ≡ true)
  -- a listed id names a stored key of that owner
  pub owned :
      (owner id : Bytes)
      → contains id (ids_of owner m) ≡ true
      → (k : Key) × (find id m.keys ≡ some k) × (k.owner ≡ owner)

pub init-IsConsistent : (crypto : Crypto) → IsConsistent crypto init
unfolding ids_of find_or find contains
init-IsConsistent crypto = record { filed = λ id k h. cc; owned = λ owner id h. cc }

module _ (crypto : Crypto) (m : KeyManager) (v : IsConsistent crypto m) where
  -- An id that the table lacks is in no index.
  pub absent_unlisted :
      (owner id : Bytes) → find id m.keys ≡ none → contains id (ids_of owner m) ≡ false
  absent_unlisted owner id absent = elim (Bool-cases (contains id (ids_of owner m))) [
    | inl listed ↦ let (k, found, _) = v.owned owner id listed in cc
    | inr unlisted ↦ unlisted
  ]

  -- In a manager whose table and index agree, adding a key whose id the table lacks keeps them in
  -- agreement.
  pub add_key-IsConsistent :
      (k : Key) → find (key_id crypto k) m.keys ≡ none → IsConsistent crypto (add_key crypto k m)
  add_key-IsConsistent k absent = record {
    filed = λ id x h. ground (
      arith,
      find-add_key crypto m k id absent,
      contains-ids_of-add_key crypto m k x.owner id,
      bytes_eq_iff (key_id crypto k) id,
      bytes_eq_iff k.owner x.owner,
      v.filed id x,
    );
    owned = λ owner id h. elim (Bool-cases (bytes_eq (key_id crypto k) id)) [
      | inl same ↦ (
        k,
        ground (arith, find-add_key crypto m k id absent),
        ground (
          arith,
          contains-ids_of-add_key crypto m k owner id,
          bytes_eq_iff k.owner owner,
          bytes_eq_iff (key_id crypto k) id,
          absent_unlisted owner id,
        ),
      )
      | inr other ↦
          let old : contains id (ids_of owner m) ≡ true =
            ground
              (arith, contains-ids_of-add_key crypto m k owner id, bytes_eq_iff k.owner owner) in
          let (x, found, own) = v.owned owner id old in
          (x, ground (arith, find-add_key crypto m k id absent), own)
    ];
  }

  -- In a manager whose table and index agree, removing any id keeps them in agreement.
  pub remove_key-IsConsistent : (id : Bytes) → IsConsistent crypto (remove_key id m).0
  remove_key-IsConsistent id = elim (Option-cases (find id m.keys)) [
    | inl absent ↦ rw (remove_key_missing m id absent) v
    | inr (k, found) ↦ record {
      filed = λ j x h. ground (
        arith,
        find-remove_key m id k found j,
        contains-ids_of-remove_key m id k found x.owner j,
        bytes_eq_iff k.owner x.owner,
        v.filed j x,
      );
      owned = λ owner j h.
          let still : contains j (ids_of owner m) ≡ true =
            ground (
              arith,
              contains-ids_of-remove_key m id k found owner j,
              bytes_eq_iff k.owner owner,
            ) in
          let (x, f, own) = v.owned owner j still in
          let other : bytes_eq id j ≡ false = ground (
            arith,
            contains-ids_of-remove_key m id k found owner j,
            bytes_eq_iff k.owner owner,
            bytes_eq_iff id j,
            f,
            own,
          ) in
          (x, ground (arith, other, find-remove_key m id k found j), own);
    }
  ]
