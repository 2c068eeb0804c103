-- ===== src/Keys/Manager/Counting.antt =====
-- How many keys of a type a node holds, after keys are added.
use cashew.Prelude.{
  ℕ, ◌+◌, ◌%◌, ◌^◌, ◌≡◌, refl, false, Bytes, bytes_eq, bytes_eq_iff, bytes_ordered, beq_refl, ◌&&◌,
  Bool-cases, none, some, List, [], ◌∷◌, ◌++◌, arith, inl, inr, if◌then◌else◌, ◌==◌,
}
use cashew.Prelude.Map.{Map, find, find-insert_new, insert_new}
use cashew.Prelude.Set.{contains}
use cashew.Crypto.{Crypto}
use cashew.Keys.KeyType.{KeyType}
use cashew.Keys.Key.{Key, key_id}
use cashew.Keys.Manager.Reads.{ids_of-add_key, find-add_key}
use cashew.Keys.Manager.Consistency.{IsConsistent, absent_unlisted}
use cashew.Keys.Manager.{KeyManager, ids_of, add_key, count_typed, count_keys}

-- Tables that agree on the listed ids count alike.
count_typed-put_unlisted :
    (type : KeyType) (id : Bytes) (k : Key) (keys : Map Bytes Key) (ids : List Bytes)
    → find id keys ≡ none
    → contains id ids ≡ false
    → count_typed type (insert_new id k keys) ids ≡ count_typed type keys ids
unfolding count_typed contains
count_typed-put_unlisted type id k keys [] absent out = refl
count_typed-put_unlisted type id k keys (j ∷ ids) absent out = ground (
  arith,
  find-insert_new id j k keys absent,
  bytes_eq_iff j id,
  bytes_eq_iff id j,
  count_typed-put_unlisted type id k keys ids absent,
)

count_typed-push :
    (type : KeyType) (id : Bytes) (k : Key) (keys : Map Bytes Key) (ids : List Bytes)
    → find id keys ≡ some k
    → count_typed type keys (ids ++ id ∷ [])
      ≡ count_typed type keys ids + (if k.type == type then 1 else 0)
unfolding count_typed
count_typed-push type id k keys [] found = ground (arith, found)
count_typed-push type id k keys (j ∷ ids) found =
    ground (arith, count_typed-push type id k keys ids found)

-- The number of keys of a type that the index lists for a node, before the wrap to uint32_t.
abbrev pub held : Bytes → KeyType → KeyManager → ℕ
held owner type m = count_typed type m.keys (ids_of owner m)

count_keys_lem :
    (owner : Bytes) (type : KeyType) (m : KeyManager)
    → count_keys owner type m ≡ held owner type m % 2 ^ 32
unfolding count_keys
count_keys_lem owner type m = refl

added_unlisted :
    (crypto : Crypto) (m : KeyManager) (k : Key) (o : Bytes) (type : KeyType)
    → find (key_id crypto k) m.keys ≡ none
    → contains (key_id crypto k) (ids_of o m) ≡ false
    → count_typed type (add_key crypto k m).keys (ids_of o m) ≡ count_typed type m.keys (ids_of o m)
unfolding add_key
added_unlisted crypto m k o type =
    count_typed-put_unlisted type (key_id crypto k) k m.keys (ids_of o m)

-- A key with a new id raises its owner's count of its type by one, and no other count.
pub held-add_key :
    (crypto : Crypto) (m : KeyManager) (k : Key) (owner : Bytes) (type : KeyType)
    → IsConsistent crypto m
    → find (key_id crypto k) m.keys ≡ none
    → held owner type (add_key crypto k m)
      ≡ held owner type m + (if bytes_eq k.owner owner && (k.type == type) then 1 else 0)
held-add_key crypto m k owner type v absent = elim (Bool-cases (bytes_eq k.owner owner)) [
  | inl own ↦
      let e : k.owner ≡ owner = (bytes_eq_iff k.owner owner).0 own in
      rw (
        ids_of-add_key crypto m k owner,
        own,
        count_typed-push type (key_id crypto k) k (add_key crypto k m).keys (ids_of k.owner m)
            stored,
        same k.owner,
        e,
      )
  | inr other ↦ rw (ids_of-add_key crypto m k owner, other, same owner) (omega arith)
]
  where
    stored : find (key_id crypto k) (add_key crypto k m).keys ≡ some k
    stored = rw (find-add_key crypto m k (key_id crypto k) absent, beq_refl (key_id crypto k))

    same :
        (o : Bytes)
        → count_typed type (add_key crypto k m).keys (ids_of o m)
          ≡ count_typed type m.keys (ids_of o m)
    same o =
        added_unlisted crypto m k o type absent
          (absent_unlisted crypto m v o (key_id crypto k) absent)

add_key_again :
    (crypto : Crypto) (m : KeyManager) (k : Key)
    → find (key_id crypto k) m.keys ≡ some k
    → ((add_key crypto k m).keys ≡ m.keys)
      × (held k.owner k.type (add_key crypto k m) ≡ held k.owner k.type m + 1)
unfolding add_key insert_new
add_key_again crypto m k found =
    let same : (add_key crypto k m).keys ≡ m.keys = rw (found, insert_new) in
    (
      same,
      rw
          (
            ids_of-add_key crypto m k k.owner,
            beq_refl k.owner,
            same,
            count_typed-push k.type (key_id crypto k) k m.keys (ids_of k.owner m) found,
          )
          (ground arith),
    )

-- In a manager whose table and index agree, a key with a new id that is added twice is stored once and
-- counted twice.
add_key_twice :
    (crypto : Crypto) (m : KeyManager) (k : Key)
    → IsConsistent crypto m
    → find (key_id crypto k) m.keys ≡ none
    → ((add_key crypto k (add_key crypto k m)).keys ≡ (add_key crypto k m).keys)
      × (held k.owner k.type (add_key crypto k (add_key crypto k m)) ≡ held k.owner k.type m + 2)
add_key_twice crypto m k v absent =
    let stored : find (key_id crypto k) (add_key crypto k m).keys ≡ some k =
      rw (find-add_key crypto m k (key_id crypto k) absent, beq_refl (key_id crypto k)) in
    let (same, count) = add_key_again crypto (add_key crypto k m) k stored in
    (same, ground (arith, count, held-add_key crypto m k k.owner k.type v absent, beq_refl k.owner))
