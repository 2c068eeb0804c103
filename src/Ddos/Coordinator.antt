-- ===== src/Ddos/Coordinator.antt =====
-- The connections of AttackPreventionCoordinator, and the nodes that ForkDetector has marked, of
-- src/security/attack_prevention.hpp and attack_prevention.cpp. The coordinator's rate limiter, its
-- SybilDefense and what they validate are left out; the clock is an argument.
use cashew.Prelude.{ℕ, Bool, true, false, not, Bytes, bytes_ordered, List, [], if◌then◌else◌}
use cashew.Prelude.Set.{contains, insert}
use cashew.Ddos
use cashew.Ddos.{
  DdosMitigation, allow_connection, record_connection, close_connection, cleanup_expired_blocks,
}

pub record AttackPreventionCoordinator : Type 0 where
  pub ddos_mitigation : DdosMitigation
  pub forked_nodes : List Bytes
  pub ddos_mitigation_enabled : Bool
  pub fork_detection_enabled : Bool

abbrev pub init : AttackPreventionCoordinator
init = record {
  ddos_mitigation = Ddos.init;
  forked_nodes = [];
  ddos_mitigation_enabled = true;
  fork_detection_enabled = true;
}

-- ForkDetector::get_detected_forks and mark_as_forked
abbrev get_detected_forks : AttackPreventionCoordinator → List Bytes
get_detected_forks c = c.forked_nodes

abbrev pub mark_as_forked : Bytes → AttackPreventionCoordinator → AttackPreventionCoordinator
mark_as_forked node c = record c { forked_nodes = insert node c.forked_nodes }

-- `ddos_mitigation_enabled_ && !allow_connection(...)`: the mitigation is not asked if it is disabled
unfoldable pub asks_mitigation :
    ℕ → Bytes → AttackPreventionCoordinator → AttackPreventionCoordinator × Bool
asks_mitigation now ip c =
    let (d, allowed) = allow_connection now ip c.ddos_mitigation in
    if c.ddos_mitigation_enabled then (record c { ddos_mitigation = d }, allowed) else (c, true)

unfoldable pub validate_incoming_connection :
    ℕ → Bytes → Bytes → AttackPreventionCoordinator → AttackPreventionCoordinator × Bool
unfolding asks_mitigation
validate_incoming_connection now ip node c =
    let (c', allowed) = asks_mitigation now ip c in
    if not allowed
    then (c', false)
    else if c'.fork_detection_enabled
    then if contains node (get_detected_forks c') then (c', false) else (c', true)
    else (c', true)

-- the node is not used here, nor when the connection closes
unfoldable pub on_connection_established :
    ℕ → Bytes → AttackPreventionCoordinator → AttackPreventionCoordinator
on_connection_established now ip c =
    if c.ddos_mitigation_enabled
    then record c { ddos_mitigation = record_connection now ip c.ddos_mitigation }
    else c

unfoldable pub on_connection_closed :
    Bytes → AttackPreventionCoordinator → AttackPreventionCoordinator
on_connection_closed ip c =
    if c.ddos_mitigation_enabled
    then record c { ddos_mitigation = close_connection ip c.ddos_mitigation }
    else c

-- the part of cleanup that concerns the mitigation
unfoldable pub cleanup : ℕ → AttackPreventionCoordinator → AttackPreventionCoordinator
cleanup now c = record c { ddos_mitigation = cleanup_expired_blocks now c.ddos_mitigation }

abbrev pub enable_ddos_mitigation : Bool → AttackPreventionCoordinator → AttackPreventionCoordinator
enable_ddos_mitigation enable c = record c { ddos_mitigation_enabled = enable }

abbrev pub enable_fork_detection : Bool → AttackPreventionCoordinator → AttackPreventionCoordinator
enable_fork_detection enable c = record c { fork_detection_enabled = enable }
