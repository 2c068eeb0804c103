-- ===== src/Keys/Tests.antt =====
-- The theorems on keys at concrete inputs.
use cashew.Prelude.{
  ◌+◌, ◌-◌, ◌%◌, ◌^◌, ◌<◌, ◌≤◌, ◌≡◌, ◌≢◌, ◌↔◌, refl, true, Bytes, bytes_eq, bytes_ordered, none,
  some, List, [], ◌∷◌, ◌++◌, length, replicate, arith, if◌then◌else◌,
}
use cashew.Prelude.Map.{find, insert_new, put, find_or}
use cashew.Prelude.Set.{contains}
use cashew.Crypto.{ascii, decimal, bytes_to_hex}
use cashew.Crypto.Sample.{toy, toy_pair, alice, bob}
use cashew.Codec.{le_bytes}
use cashew.Codec.Laws.{IsBytes}
use cashew.Keys.KeyType.{node, service, key_type_to_string}
use cashew.Keys.Key.{
  Key, key_id, serialize, deserialize, has_decayed, time_until_decay, decay_period,
}
use cashew.Keys.Transfer
use cashew.Keys.Transfer.{KeyTransfer}
use cashew.Keys.Vouch
use cashew.Keys.Vouch.{KeyVouch}
use cashew.Keys.Decay.{decay_exact}
use cashew.Keys.RoundTrip.{keys_round_trips, IsKey, deserialize-serialize, deserialize-prefix}
use cashew.Keys.Manager.{
  KeyManager, init, ids_of, add_key, transferred_key, vouched_key, issue_one, execute_transfer,
  execute_vouch, create_transfer, create_vouch, get_vouches_by, can_vouch, count_keys, count_typed,
}
use cashew.Keys.Manager.Consistency.{IsConsistent, init-IsConsistent, add_key-IsConsistent}
use cashew.Keys.Manager.Counting.{held}
use cashew.Keys.Manager.Moves.{execute_transfer_moves}
use cashew.Keys.Manager.Vouching.{
  FreshRun, execute_vouch_issues, Op, adds, vouches, run, can_vouch_lifetime,
}
use cashew.Keys.Manager.Signing.{create_transfer_verifies}

abbrev first_key : Key
first_key = record {
  type = service;
  owner = alice;
  issued = 1000;
  last_used = 1000;
  source = ascii "pow";
  nonce = 7;
}

first_key-IsKey : IsKey first_key
first_key-IsKey = record {
  type_byte = omega arith;
  owner_size = refl;
  issued_fits = omega arith;
  last_used_fits = omega arith;
  source_fits = omega arith;
  nonce_fits = omega arith;
}

abbrev first_transfer : KeyTransfer
first_transfer = record {
  key_id = ascii "k";
  from_node = alice;
  to_node = bob;
  key_type = service;
  timestamp = 2000;
  reason = ascii "gift";
  signature = replicate 64 9;
}

abbrev first_vouch : KeyVouch
first_vouch = record {
  voucher = alice;
  vouchee = bob;
  key_type = node;
  key_count = 2;
  timestamp = 2000;
  statement = ascii "ok";
  signature = replicate 64 9;
}

first_key_read : deserialize (serialize first_key ++ 5 ∷ []) ≡ some first_key
first_key_read = deserialize-serialize first_key (5 ∷ []) first_key-IsKey

decay_exact_example :
    ((has_decayed 2593000 first_key ≡ true) ↔ (1000 + decay_period ≤ 2593000))
    × (time_until_decay 2593000 first_key ≡ 1000 + decay_period - 2593000)
decay_exact_example = decay_exact 2593000 first_key (omega arith) (omega arith)

-- a manager with one key
abbrev one_key : KeyManager
one_key = add_key toy first_key init

nothing_stored : find (key_id toy first_key) init.keys ≡ none
unfolding find
nothing_stored = refl

one_key-IsConsistent : IsConsistent toy one_key
one_key-IsConsistent =
    add_key-IsConsistent toy init (init-IsConsistent toy) first_key nothing_stored

abbrev second_key : Key
second_key = record first_key { nonce = 8 }

second_absent : find (key_id toy second_key) one_key.keys ≡ none
unfolding find add_key insert_new put key_id bytes_to_hex key_type_to_string decimal
second_absent = refl

-- a transfer of the key
abbrev gift : KeyTransfer
gift = record first_transfer { key_id = key_id toy first_key }

gift_found : find (key_id toy first_key) one_key.keys ≡ some first_key
unfolding find add_key insert_new put key_id bytes_to_hex key_type_to_string decimal
gift_found = refl

gift_new : find (key_id toy (transferred_key gift one_key.next_nonce)) one_key.keys ≡ none
unfolding find add_key insert_new put key_id bytes_to_hex key_type_to_string decimal transferred_key
gift_new = refl

execute_transfer_moves_example :
    ((execute_transfer toy gift one_key).1 ≡ true)
    × IsConsistent toy (execute_transfer toy gift one_key).0
    × (find (key_id toy first_key) (execute_transfer toy gift one_key).0.keys ≡ (
        if bytes_eq (key_id toy (transferred_key gift one_key.next_nonce)) (key_id toy first_key)
        then some (transferred_key gift one_key.next_nonce)
        else if bytes_eq (key_id toy first_key) (key_id toy first_key)
        then none
        else find (key_id toy first_key) one_key.keys))
    × (contains
          (key_id toy (transferred_key gift one_key.next_nonce))
          (ids_of bob (execute_transfer toy gift one_key).0)
        ≡ true)
execute_transfer_moves_example =
    execute_transfer_moves toy gift one_key first_key (key_id toy first_key) one_key-IsConsistent
      gift_found refl gift_new

nobody_owns : (k : Key) → find (ascii "k") init.keys ≡ some k → k.owner ≢ alice
unfolding find
nobody_owns k h = absurd (ground (arith, h))

vouch_fresh : FreshRun toy first_vouch 3000 2 one_key
unfolding find add_key insert_new put key_id bytes_to_hex key_type_to_string decimal vouched_key
    issue_one
vouch_fresh = (refl, (refl, tt))

execute_vouch_issues_example :
    IsConsistent toy (execute_vouch toy first_vouch 3000 one_key)
    × (held bob node (execute_vouch toy first_vouch 3000 one_key) ≡ held bob node one_key + 2)
execute_vouch_issues_example =
    execute_vouch_issues toy first_vouch 3000 one_key bob node one_key-IsConsistent vouch_fresh

abbrev some_ops : List Op
some_ops = adds first_key ∷ vouches first_vouch 3000 ∷ vouches first_vouch 4000 ∷ []

can_vouch_lifetime_example :
    (can_vouch alice bob node (run toy some_ops init) ≡ true)
    ↔ ((alice ≢ bob) × (length (get_vouches_by alice (run toy some_ops init)) % 2 ^ 32 < 3))
can_vouch_lifetime_example = can_vouch_lifetime toy some_ops alice bob node

abbrev secret_key : Bytes
secret_key = replicate 64 3

-- what create_transfer makes of alice's request
abbrev signed_gift : KeyTransfer
signed_gift =
    let t = record gift { timestamp = 2500; signature = replicate 64 0 } in
    record t { signature = toy.sign (Transfer.signed_message t) secret_key }

gift_created :
    create_transfer toy
      (key_id toy first_key)
      alice
      bob
      (ascii "gift")
      secret_key
      2500
      (replicate 64 0)
      one_key
    ≡ some signed_gift
unfolding create_transfer find add_key insert_new put key_id bytes_to_hex key_type_to_string decimal
    count_keys count_typed ids_of find_or Transfer.to_bytes Transfer.signed_message le_bytes
gift_created = refl

create_transfer_verifies_example :
    (Transfer.verify_signature toy signed_gift secret_key ≡ true)
    × (k : Key) × (find (key_id toy first_key) one_key.keys ≡ some k)
    × (k.owner ≡ alice)
    × (k.type ≡ service)
create_transfer_verifies_example =
    create_transfer_verifies toy secret_key secret_key (toy_pair secret_key) (key_id toy first_key)
      alice bob (ascii "gift") 2500 (replicate 64 0) one_key signed_gift gift_created

abbrev signed_vouch : KeyVouch
signed_vouch =
    let v = record first_vouch { timestamp = 2500; signature = replicate 64 0 } in
    record v { signature = toy.sign (Vouch.signed_message v) secret_key }

vouch_created :
    create_vouch toy alice bob node 2 (ascii "ok") secret_key 2500 (replicate 64 0) one_key
    ≡ some signed_vouch
unfolding create_vouch can_vouch find add_key Vouch.to_bytes Vouch.signed_message le_bytes
vouch_created = refl

serialized_key-IsBytes : IsBytes (serialize first_key ++ 5 ∷ [])
unfolding serialize le_bytes
serialized_key-IsBytes = ground arith

deserialize-prefix_example :
    (rest : Bytes) × (serialize first_key ++ 5 ∷ [] ≡ serialize first_key ++ rest)
deserialize-prefix_example =
    deserialize-prefix (serialize first_key ++ 5 ∷ []) first_key serialized_key-IsBytes
      first_key_read

keys_round_trips_example :
    (deserialize (serialize first_key ++ 5 ∷ []) ≡ some first_key)
    × (Transfer.from_bytes (Transfer.to_bytes first_transfer ++ 5 ∷ []) ≡ some first_transfer)
    × (Vouch.from_bytes (Vouch.to_bytes first_vouch ++ 5 ∷ []) ≡ some first_vouch)
keys_round_trips_example =
    keys_round_trips first_key first_transfer first_vouch (5 ∷ []) first_key-IsKey
      (record {
        key_id_fits = omega arith;
        from_size = refl;
        to_size = refl;
        type_byte = omega arith;
        timestamp_fits = omega arith;
        reason_fits = omega arith;
        signature_size = refl;
      })
      (record {
        voucher_size = refl;
        vouchee_size = refl;
        type_byte = omega arith;
        count_fits = omega arith;
        timestamp_fits = omega arith;
        statement_fits = omega arith;
        signature_size = refl;
      })
