-- ===== src/Lib.antt =====
-- Verification of the Cashew node: its participation keys, its event ledger, the state that it
-- derives from the ledger, its decay of keys and things, its proofs of work, its connection limits,
-- its gossip and its router.
--
-- A node keeps an append-only ledger of events, a hash chain. It records events of its own and
-- receives events of its peers; every event that the ledger accepts is applied to a state of nodes,
-- networks and things, which says who may host, join, route and post. Keys are held, transferred
-- and vouched for in a key manager. Proofs of work are how a node earns keys; the connections of an
-- address are counted before it may open another one. Nodes tell each other of peers, contents and
-- states by gossip, and fetch contents by their hash through a router, hop by hop or in onion
-- layers.
--
-- Where the parts are (paths of the repository; a definition has the name of the function it
-- models):
--   Prelude, Codec: lists, maps and sets in key order, and the byte readers and writers.
--   Crypto: the text of hashes (src/crypto/blake3.cpp), and the parameters of the development.
--   Keys/KeyType, Key, Transfer, Vouch: src/core/keys/key.hpp and key.cpp, up to KeyManager.
--   Keys/Manager: KeyManager. Of its children, Reads is about reads after writes, Consistency about
--     table and index, Counting about the count of keys, and the others about operations; Queries
--     holds the queries that the operations do not use.
--   Ledger/EventType, Event, Payload, Index, Store, File: src/core/ledger/ledger.hpp and
--     ledger.cpp. Ledger/Chain holds the invariant IsLedger, Runs takes it to every sequence of
--     calls, and Queries, Sync and Reload are about what the operations do.
--   State/Records, State/Manager: src/core/ledger/state.hpp and state.cpp. State/Manager/Sync joins
--     the state to the ledger by the loop of apply_merge_both,
--     src/network/state_reconciliation.cpp.
--   Decay: src/core/decay/decay.hpp and decay.cpp, over the state manager. Decay/Policy holds the
--     records, Epoch the checks and their history, and Owned is about whose keys decay.
--   Pow: src/core/pow/pow.hpp and pow.cpp, and SybilDefense::verify_pow_difficulty of
--     src/security/attack_prevention.cpp.
--   Ddos: DDoSMitigation of src/security/attack_prevention.hpp and attack_prevention.cpp.
--     Ddos/Coordinator holds what AttackPreventionCoordinator does with connections.
--   Codec/Parse: readers that check sizes by hand, for the two parts that follow. A read behind the
--     end of a buffer, which C++ leaves undefined, is the result `overrun`; std::nullopt is
--     `refused`.
--   Gossip/Announce, Message, Protocol: src/network/gossip.hpp and gossip.cpp. Protocol/Seen is
--     about the cache of seen messages, and Flood about how far and to whom messages go.
--   Router/Table, Request, Onion, State, Node: src/network/router.hpp and router.cpp. Table/Listing
--     and Consistency are about the two views of the table, Selection about the choice of a host;
--     Onion/Peeling about the layers; Node/Forwarding, Relaying and Layers about requests, Quiet,
--     Delivery and Answers about responses.
--   The modules named Tests hold examples.
--
-- How the code is modelled:
--   A class is a record of its members, and a method is a function from the state to the state and
--     its result. A method runs whole, as under its mutex. Logging is left out. The clock is an
--     argument, one reading for each call. Machine integers are natural numbers with the wrap
--     written out; an int32_t is its 32-bit pattern. Values of an enum over uint8_t are bytes,
--     since casts make any byte a value.
--   Numbers are written in little-endian order, as on the targets that the build supports. A cursor
--     into a buffer is the list of the bytes ahead. Strings are lists of bytes. std::map and
--     std::set are lists in key order.
--   The registered callback of the ledger is the list of the events handed to it. A member that a
--     default constructor leaves uninitialised is `none`. A file that ends too early is the result
--     `none`, where the code goes on with what its buffers hold. The counter of Key::create, which
--     is one for the process, belongs to the key manager.
--   Three loops run on fuel. The decimal digits of a number have 20 rounds; a 64-bit number has at
--     most as many digits. The keystream has a round for each byte, and a digest is not empty. A
--     request in onion layers has as many as it is given: one more than the bytes of its first layer
--     is enough.
--   All other loops are recursions on the list or the number that they consume; the mask of a byte
--     has eight rounds, after which it is zero, and the shifts of a byte have as many as are
--     missing to the difficulty, at which the loop stops.
--   Callbacks are functions in the record where their answer matters and flags where it is only
--     logged; lists of the record note their calls. An uninitialised member that is read is an
--     argument (`blank`).
--
-- Parameters: BLAKE3 and Ed25519 (the record Crypto) and Argon2 (Hasher). Of signatures it is
-- assumed, where a theorem says so, that a key pair's signatures verify (IsKeyPair). Floats are
-- their bit patterns and their operations the record Floats; Random::uniform is a function `draw`,
-- and std::sort an argument. That a new id is new is a hypothesis where an operation makes one.
--
-- Not modelled: KeyStore, sockets, sessions, the thread of the gossip scheduler, the gateway,
-- storage and configuration (I/O, or glue over libraries); the thread that runs decay; reputation,
-- contributions, networks, access and the rest of attack prevention; of the ledger,
-- detect_conflicts; of the state, get_snapshot.
pub mod Prelude
pub mod Codec
pub mod Crypto
pub mod Keys
pub mod Ledger
pub mod State
pub mod Pow
pub mod Ddos
pub mod Decay
pub mod Gossip
pub mod Router
