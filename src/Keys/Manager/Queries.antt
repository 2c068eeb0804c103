-- ===== src/Keys/Manager/Queries.antt =====
-- The queries of KeyManager (src/core/keys/key.cpp) that its operations do not use.
use cashew.Prelude.{
  ℕ, ◌+◌, ◌-◌, ◌%◌, ◌^◌, Bool, ◌||◌, Bytes, none, some, List, [], ◌∷◌, map, leb, ◌==◌, bytes_eq,
  select, if◌then◌else◌, bytes_ordered,
}
use cashew.Prelude.Map.{Map, find}
use cashew.Keys.KeyType.{KeyType}
use cashew.Keys.Key.{Key}
use cashew.Keys.Transfer.{KeyTransfer}
use cashew.Keys.Vouch.{KeyVouch}
use cashew.Keys.Manager.{KeyManager, ids_of, count_keys, min_keys_to_transfer}

unfoldable get_keys_by_type : KeyType → KeyManager → List Key
get_keys_by_type type m = select (λ key. key.type == type) (map (λ e. e.1) m.keys)

-- the keys that a list of ids names, ids with no key left out
present : Map Bytes Key → List Bytes → List Key
present keys [] = []
present keys (id ∷ ids) = elim (find id keys) [
  | none ↦ present keys ids
  | some key ↦ key ∷ present keys ids
]

unfoldable get_keys_by_owner : Bytes → KeyManager → List Key
unfolding present ids_of
get_keys_by_owner owner m = present m.keys (ids_of owner m)

unfoldable can_transfer : Bytes → Bytes → KeyType → KeyManager → Bool
unfolding count_keys
can_transfer from to type m = leb min_keys_to_transfer (count_keys from type m)

unfoldable get_transfer_history : Bytes → KeyManager → List KeyTransfer
get_transfer_history node m =
    select (λ t. bytes_eq t.from_node node || bytes_eq t.to_node node) m.transfer_history

unfoldable get_vouches_for : Bytes → KeyManager → List KeyVouch
get_vouches_for vouchee m = select (λ v. bytes_eq v.vouchee vouchee) m.vouch_records

pub record VouchStats : Type 0 where
  pub given : ℕ
  pub received : ℕ
  pub successful : ℕ
  pub failed : ℕ

-- the loop of get_vouch_stats, its counters uint32_t
tally : Bytes → VouchStats → List KeyVouch → VouchStats
tally node s [] = s
tally node s (v ∷ vs) =
    let up = λ (b : Bool) (n : ℕ). if b then (n + 1) % 2 ^ 32 else n in
    tally node
      (record {
        given = up (bytes_eq v.voucher node) s.given;
        received = up (bytes_eq v.vouchee node) s.received;
        successful = up (bytes_eq v.voucher node) s.successful;
        failed = s.failed;
      })
      vs

unfoldable get_vouch_stats : Bytes → KeyManager → VouchStats
unfolding tally
get_vouch_stats node m =
    let s =
      tally node (record { given = 0; received = 0; successful = 0; failed = 0 }) m.vouch_records in
    record s { failed = (s.given + 2 ^ 32 - s.successful) % 2 ^ 32 }
