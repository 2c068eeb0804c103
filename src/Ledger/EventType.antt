-- ===== src/Ledger/EventType.antt =====
-- EventType and IssuanceMethod of src/core/ledger/ledger.hpp. A cast from uint8_t makes any byte a
-- value of the enum, so a type is its byte; `kind` is the view of it that the switch statements take.
use cashew.Prelude.{ℕ, ◌==◌, if◌then◌else◌}

abbrev pub EventType : Type 0
EventType = ℕ

abbrev pub node_joined : EventType
node_joined = 1

abbrev pub node_left : EventType
node_left = 2

abbrev pub key_issued : EventType
key_issued = 10

abbrev pub key_revoked : EventType
key_revoked = 12

abbrev pub network_created : EventType
network_created = 20

abbrev pub network_member_added : EventType
network_member_added = 23

abbrev network_member_removed : EventType
network_member_removed = 24

abbrev pub thing_replicated : EventType
thing_replicated = 31

abbrev thing_removed : EventType
thing_removed = 32

abbrev pub reputation_updated : EventType
reputation_updated = 40

abbrev pow_solution_submitted : EventType
pow_solution_submitted = 50

abbrev postake_contribution : EventType
postake_contribution = 51

-- IssuanceMethod
abbrev pow_method : ℕ
pow_method = 1

abbrev postake_method : ℕ
postake_method = 2

abbrev pub vouched_method : ℕ
vouched_method = 3

-- The labels of the switch statements; every other byte goes to `default`.
pub data Kind : Type 0 where
  joined left issued revoked created added removed replicated dropped reputation pow postake : Kind
  other : Kind

unfoldable pub kind : EventType → Kind
kind t =
    if t == node_joined
    then joined
    else if t == node_left
    then left
    else if t == key_issued
    then issued
    else if t == key_revoked
    then revoked
    else if t == network_created
    then created
    else if t == network_member_added
    then added
    else if t == network_member_removed
    then removed
    else if t == thing_replicated
    then replicated
    else if t == thing_removed
    then dropped
    else if t == reputation_updated
    then reputation
    else if t == pow_solution_submitted
    then pow
    else if t == postake_contribution
    then postake
    else other
