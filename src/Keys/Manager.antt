-- ===== src/Keys/Manager.antt =====
-- KeyManager of src/core/keys/key.hpp, and its methods in key.cpp. The process-wide counter of
-- Key::create is the field `next_nonce`; each method runs whole, as under its mutex. The clock and
-- the content of an uninitialised signature field are arguments.
pub mod Queries
pub mod Reads
pub mod Counting
pub mod Consistency
pub mod Moves
pub mod Vouching
pub mod Signing
use cashew.Prelude.{
  ℕ, zero, suc, ◌+◌, ◌-◌, ◌%◌, ◌^◌, Bool, true, false, not, ◌&&◌, ◌||◌, Bytes, Option, none, some,
  List, [], ◌∷◌, ◌++◌, map, length, take, leb, ltb, ◌==◌, bytes_eq, select, if◌then◌else◌,
  bytes_ordered,
}
use cashew.Prelude.Map.{Map, find, put, erase, find_or, insert_new}
use cashew.Prelude.Set.{remove}
use cashew.Crypto.{Crypto, ascii}
use cashew.Keys.KeyType.{KeyType}
use cashew.Keys.Key.{Key, create, key_id}
use cashew.Keys.Transfer
use cashew.Keys.Transfer.{KeyTransfer}
use cashew.Keys.Vouch
use cashew.Keys.Vouch.{KeyVouch}

pub record KeyManager : Type 0 where
  pub keys : Map Bytes Key
  pub key_index : Map Bytes (List Bytes)
  pub transfer_history : List KeyTransfer
  pub vouch_records : List KeyVouch
  pub vouch_counts : Map Bytes ℕ
  pub next_nonce : ℕ

abbrev min_keys_to_transfer : ℕ
min_keys_to_transfer = 1

abbrev max_vouch_per_epoch : ℕ
max_vouch_per_epoch = 3

abbrev pub init : KeyManager
init = record {
  keys = [];
  key_index = [];
  transfer_history = [];
  vouch_records = [];
  vouch_counts = [];
  next_nonce = 1;
}

-- The ids that the index lists for a node.
unfoldable pub ids_of : Bytes → KeyManager → List Bytes
ids_of owner m = find_or [] owner m.key_index

unfoldable pub add_key : Crypto → Key → KeyManager → KeyManager
unfolding ids_of
add_key crypto key m =
    let id = key_id crypto key in
    record m {
      keys = insert_new id key m.keys;
      key_index = put key.owner (ids_of key.owner m ++ id ∷ []) m.key_index;
    }

pub remove_key : Bytes → KeyManager → KeyManager × Bool
unfolding ids_of
remove_key id m = elim (find id m.keys) [
  | none ↦ (m, false)
  | some key ↦ (
    record m {
      keys = erase id m.keys;
      key_index = put key.owner (remove id (ids_of key.owner m)) m.key_index;
    },
    true,
  )
]

get_key : Bytes → KeyManager → Option Key
get_key id m = find id m.keys

unfoldable pub count_typed : KeyType → Map Bytes Key → List Bytes → ℕ
count_typed type keys [] = 0
count_typed type keys (id ∷ ids) =
    let rest = count_typed type keys ids in
    elim (find id keys) [ none ↦ rest | some key ↦ if key.type == type then suc rest else rest ]

-- the count is a uint32_t
unfoldable pub count_keys : Bytes → KeyType → KeyManager → ℕ
unfolding ids_of
count_keys owner type m = count_typed type m.keys (ids_of owner m) % 2 ^ 32

-- the record before it is signed; `blank` is what its signature field happens to hold
transfer_record : Bytes → Bytes → Bytes → KeyType → ℕ → Bytes → Bytes → KeyTransfer
transfer_record id from to type now reason blank = record {
  key_id = id;
  from_node = from;
  to_node = to;
  key_type = type;
  timestamp = now;
  reason = reason;
  signature = blank;
}

-- message_bytes.resize(size - signature size), then sign
sign_transfer : Crypto → Bytes → KeyTransfer → KeyTransfer
sign_transfer crypto secret t =
    let message = Transfer.to_bytes t in
    record t { signature = crypto.sign (take (length message - length t.signature) message) secret }

unfoldable pub create_transfer :
    Crypto → Bytes → Bytes → Bytes → Bytes → Bytes → ℕ → Bytes → KeyManager → Option KeyTransfer
unfolding count_keys transfer_record sign_transfer
create_transfer crypto id from to reason secret now blank m = elim (find id m.keys) [
  | none ↦ none
  | some key ↦
      if not (bytes_eq key.owner from)
      then none
      else if ltb (count_keys from key.type m) min_keys_to_transfer
      then none
      else some (sign_transfer crypto secret (transfer_record id from to key.type now reason blank))
]

-- the key that a transfer issues to its recipient
unfoldable pub transferred_key : KeyTransfer → ℕ → Key
unfolding create
transferred_key t nonce = create t.key_type t.to_node t.timestamp (ascii "transferred") nonce

-- Key::create's fetch_add on a uint64_t
pub tick_nonce : KeyManager → KeyManager
tick_nonce m = record m { next_nonce = (m.next_nonce + 1) % 2 ^ 64 }

-- the end of execute_transfer, once the old key is out
hand_over : Crypto → KeyTransfer → KeyManager → KeyManager
unfolding transferred_key tick_nonce
hand_over crypto t m =
    let m' = add_key crypto (transferred_key t m.next_nonce) (tick_nonce m) in
    record m' { transfer_history = m'.transfer_history ++ t ∷ [] }

pub execute_transfer : Crypto → KeyTransfer → KeyManager → KeyManager × Bool
unfolding hand_over get_key
execute_transfer crypto t m = elim (get_key t.key_id m) [
  | none ↦ (m, false)
  | some key ↦
      if not (bytes_eq key.owner t.from_node)
      then (m, false)
      else let (m', removed) = remove_key t.key_id m in
        if not removed then (m', false) else (hand_over crypto t m', true)
]

unfoldable pub can_vouch : Bytes → Bytes → KeyType → KeyManager → Bool
can_vouch voucher vouchee type m =
    if bytes_eq voucher vouchee then false else elim (find voucher m.vouch_counts) [
      | none ↦ true
      | some count ↦ not (leb max_vouch_per_epoch count)
    ]

vouch_record : Bytes → Bytes → KeyType → ℕ → ℕ → Bytes → Bytes → KeyVouch
vouch_record voucher vouchee type count now statement blank = record {
  voucher = voucher;
  vouchee = vouchee;
  key_type = type;
  key_count = count;
  timestamp = now;
  statement = statement;
  signature = blank;
}

sign_vouch : Crypto → Bytes → KeyVouch → KeyVouch
sign_vouch crypto secret v =
    let message = Vouch.to_bytes v in
    record v { signature = crypto.sign (take (length message - length v.signature) message) secret }

unfoldable pub create_vouch :
    Crypto → Bytes → Bytes → KeyType → ℕ → Bytes → Bytes → ℕ → Bytes → KeyManager → Option KeyVouch
unfolding can_vouch vouch_record sign_vouch
create_vouch crypto voucher vouchee type count statement secret now blank m =
    if not (can_vouch voucher vouchee type m)
    then none
    else some
        (sign_vouch crypto secret (vouch_record voucher vouchee type count now statement blank))

unfoldable pub vouched_key : KeyVouch → ℕ → ℕ → Key
unfolding create
vouched_key v now nonce = create v.key_type v.vouchee now (ascii "vouched") nonce

-- one round of execute_vouch's loop
unfoldable pub issue_one : Crypto → KeyVouch → ℕ → KeyManager → KeyManager
unfolding vouched_key tick_nonce
issue_one crypto v now m = add_key crypto (vouched_key v now m.next_nonce) (tick_nonce m)

-- the loop of execute_vouch, over the rounds left
issue : Crypto → KeyVouch → ℕ → ℕ → KeyManager → KeyManager
issue crypto v now zero m = m
issue crypto v now (suc rounds) m = issue crypto v now rounds (issue_one crypto v now m)

-- the records kept at the end of execute_vouch
note_vouch : KeyVouch → KeyManager → KeyManager
note_vouch v m = record m {
  vouch_records = m.vouch_records ++ v ∷ [];
  vouch_counts = put v.voucher ((find_or 0 v.voucher m.vouch_counts + 1) % 2 ^ 32) m.vouch_counts;
}

-- execute_vouch returns true always
pub execute_vouch : Crypto → KeyVouch → ℕ → KeyManager → KeyManager
unfolding note_vouch
execute_vouch crypto v now m = note_vouch v (issue crypto v now v.key_count m)

pub get_vouches_by : Bytes → KeyManager → List KeyVouch
get_vouches_by voucher m = select (λ v. bytes_eq v.voucher voucher) m.vouch_records
