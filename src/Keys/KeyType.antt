-- ===== src/Keys/KeyType.antt =====
-- KeyType of src/core/keys/key.hpp, and its names in key.cpp. A cast from uint8_t makes any byte a
-- KeyType, so the type is the enum's underlying byte and its enumerators are constants.
use cashew.Prelude.{ℕ, Bytes, Option, none, some, ◌==◌, bytes_eq, if◌then◌else◌}
use cashew.Crypto.{ascii}

abbrev pub KeyType : Type 0
KeyType = ℕ

abbrev pub identity : KeyType
identity = 1

abbrev pub node : KeyType
node = 2

abbrev pub network : KeyType
network = 3

abbrev pub service : KeyType
service = 4

abbrev pub routing : KeyType
routing = 5

unfoldable pub key_type_to_string : KeyType → Bytes
key_type_to_string type =
    if type == identity
    then ascii "identity"
    else if type == node
    then ascii "node"
    else if type == network
    then ascii "network"
    else if type == service
    then ascii "service"
    else if type == routing
    then ascii "routing"
    else ascii "unknown"

unfoldable key_type_from_string : Bytes → Option KeyType
key_type_from_string str =
    if bytes_eq str (ascii "identity")
    then some identity
    else if bytes_eq str (ascii "node")
    then some node
    else if bytes_eq str (ascii "network")
    then some network
    else if bytes_eq str (ascii "service")
    then some service
    else if bytes_eq str (ascii "routing")
    then some routing
    else none
