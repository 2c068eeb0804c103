-- ===== src/Keys/Manager/Reads.antt =====
-- What find and the index give after a key is added or removed.
use cashew.Prelude.{
  ◌≡◌, true, false, Bytes, bytes_eq, bytes_ordered, none, some, [], ◌∷◌, ◌++◌, arith, if◌then◌else◌,
  not, ◌&&◌, ◌||◌,
}
use cashew.Prelude.Map.{find, find-insert_new, find-erase, find_or-put}
use cashew.Prelude.Set.{contains, contains-push, contains-remove, remove}
use cashew.Crypto.{Crypto}
use cashew.Keys.Key.{Key, key_id}
use cashew.Keys.Manager.{KeyManager, ids_of, add_key, remove_key}

module _ (crypto : Crypto) (m : KeyManager) (k : Key) where
  pub find-add_key :
      (id : Bytes)
      → find (key_id crypto k) m.keys ≡ none
      → find id (add_key crypto k m).keys
        ≡ (if bytes_eq (key_id crypto k) id then some k else find id m.keys)
  unfolding add_key
  find-add_key id absent = find-insert_new (key_id crypto k) id k m.keys absent

  pub ids_of-add_key :
      (owner : Bytes)
      → ids_of owner (add_key crypto k m) ≡ (
          if bytes_eq k.owner owner
          then ids_of k.owner m ++ key_id crypto k ∷ []
          else ids_of owner m)
  unfolding add_key
  ids_of-add_key owner =
      find_or-put [] k.owner owner (ids_of k.owner m ++ key_id crypto k ∷ []) m.key_index

  pub contains-ids_of-add_key :
      (owner id : Bytes)
      → contains id (ids_of owner (add_key crypto k m)) ≡ (
          if bytes_eq k.owner owner
          then contains id (ids_of k.owner m) || bytes_eq (key_id crypto k) id
          else contains id (ids_of owner m))
  contains-ids_of-add_key owner id =
      rw (ids_of-add_key owner)
        (ground (arith, contains-push (key_id crypto k) id (ids_of k.owner m)))

module _ (m : KeyManager) (id : Bytes) (k : Key) (found : find id m.keys ≡ some k) where
  pub remove_key_found : (remove_key id m).1 ≡ true
  unfolding remove_key
  remove_key_found = ground (arith, found)

  pub find-remove_key :
      (j : Bytes)
      → find j (remove_key id m).0.keys ≡ (if bytes_eq id j then none else find j m.keys)
  unfolding remove_key
  find-remove_key j = rw (found, remove_key) (find-erase id j m.keys)

  pub contains-ids_of-remove_key :
      (owner j : Bytes)
      → contains j (ids_of owner (remove_key id m).0) ≡ (
          if bytes_eq k.owner owner
          then not (bytes_eq id j) && contains j (ids_of k.owner m)
          else contains j (ids_of owner m))
  unfolding remove_key
  contains-ids_of-remove_key owner j =
      rw (found, remove_key)
        (ground (
          arith,
          found,
          find_or-put [] k.owner owner (remove id (ids_of k.owner m)) m.key_index,
          contains-remove id j (ids_of k.owner m),
        ))

-- An id that the table lacks changes nothing.
pub remove_key_missing :
    (m : KeyManager) (id : Bytes) → find id m.keys ≡ none → remove_key id m ≡ (m, false)
unfolding remove_key
remove_key_missing m id absent = rw (absent, remove_key)
