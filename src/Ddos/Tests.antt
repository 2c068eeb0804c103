-- ===== src/Ddos/Tests.antt =====
-- The theorems on connections at concrete inputs.
use cashew.Prelude.{◌≤◌, ◌≡◌, refl, true, false, Bytes, bytes_ordered, List, [], ◌∷◌, arith}
use cashew.Prelude.Map.{find, find_or}
use cashew.Crypto.{ascii}
use cashew.Crypto.Sample.{alice, bob}
use cashew.Ddos.{DdosMitigation, new_info, init, is_blocked, allow_connection, record_connection}
use cashew.Ddos.Coordinator
use cashew.Ddos.Limits.{
  Call, connects, closes, cleans, forks, enables_fork_detection, active, asked_twice,
}

abbrev address : Bytes
address = ascii "10.0.0.1"

-- two nodes at one address, of which one is marked as forked
abbrev busy : List Call
busy =
    connects 5 address alice
    ∷ forks bob
    ∷ connects 6 address bob
    ∷ enables_fork_detection false
    ∷ connects 7 address bob
    ∷ closes address
    ∷ cleans 9
    ∷ []

-- a mitigation with ten, or nine, active connections of the address
abbrev crowded : DdosMitigation
crowded = record init {
  ip_connections = (address, record new_info { active_connections = 10 }) ∷ [];
}

abbrev nearly : DdosMitigation
nearly = record init { ip_connections = (address, record new_info { active_connections = 9 }) ∷ [] }

crowded_free : is_blocked 100 address crowded ≡ false
unfolding is_blocked find
crowded_free = refl

crowded_many : 10 ≤ active address crowded
unfolding find_or find
crowded_many = omega arith

nearly_free : is_blocked 100 address nearly ≡ false
unfolding is_blocked find
nearly_free = refl

nearly_nine : active address nearly ≡ 9
unfolding find_or find
nearly_nine = refl

asked_twice_example :
    ((allow_connection 100 address nearly).1 ≡ true)
    × ((allow_connection 100 address (allow_connection 100 address nearly).0).1 ≡ true)
    × (active address (
          record_connection 100 address (
            record_connection 100 address
              (allow_connection 100 address (allow_connection 100 address nearly).0).0))
        ≡ 11)
asked_twice_example = asked_twice 100 address nearly nearly_free nearly_nine
