-- ===== src/Ddos.antt =====
-- DDoSMitigation of src/security/attack_prevention.hpp and attack_prevention.cpp: the connections of
-- each IP address, and the addresses that are blocked. The clock is an argument.
pub mod Coordinator
pub mod Limits
mod Tests
use cashew.Prelude.{
  ℕ, zero, suc, ◌+◌, ◌-◌, ◌%◌, ◌^◌, Bool, true, false, not, ◌&&◌, ◌||◌, Bytes, bytes_ordered,
  Option, none, some, List, [], ◌∷◌, ◌++◌, map, length, drop, select, ltb, leb, if◌then◌else◌,
}
use cashew.Prelude.Map.{Map, find, put, erase, find_or}
use cashew.Crypto.{ascii}
use cashew.Keys.Key.{sub_64}

pub record IpConnectionInfo : Type 0 where
  pub active_connections : ℕ
  pub total_connections : ℕ
  pub last_connection_time : ℕ
  pub connection_timestamps : List ℕ

-- the default constructor
abbrev pub new_info : IpConnectionInfo
new_info = record {
  active_connections = 0;
  total_connections = 0;
  last_connection_time = 0;
  connection_timestamps = [];
}

pub record BlockEntry : Type 0 where
  pub block_time : ℕ
  pub expiry_time : ℕ
  pub reason : Bytes

pub record DdosMitigation : Type 0 where
  pub ip_connections : Map Bytes IpConnectionInfo
  pub blocked_ips : Map Bytes BlockEntry
  pub total_connections : ℕ
  pub blocked_connections : ℕ

abbrev pub init : DdosMitigation
init = record {
  ip_connections = [];
  blocked_ips = [];
  total_connections = 0;
  blocked_connections = 0;
}

-- MAX_CONNECTIONS_PER_IP
abbrev pub max_connections_per_ip : ℕ
max_connections_per_ip = 10

-- ATTACK_THRESHOLD_CONNECTIONS_PER_MINUTE
abbrev attack_threshold : ℕ
attack_threshold = 50

exceeds_connection_limit : IpConnectionInfo → Bool
exceeds_connection_limit info = leb max_connections_per_ip info.active_connections

pub is_blocked : ℕ → Bytes → DdosMitigation → Bool
is_blocked now ip d = elim (find ip d.blocked_ips) [
  | none ↦ false
  | some entry ↦ ltb now entry.expiry_time
]

pub block_ip : ℕ → Bytes → ℕ → DdosMitigation → DdosMitigation
block_ip now ip duration d = record d {
  blocked_ips =
      put ip
        (record {
          block_time = now;
          expiry_time = (now + duration) % 2 ^ 64;
          reason = ascii "Rate limit exceeded";
        })
        d.blocked_ips;
}

-- blocked_connections_++
count_blocked : DdosMitigation → DdosMitigation
count_blocked d = record d { blocked_connections = (d.blocked_connections + 1) % 2 ^ 64 }

pub allow_connection : ℕ → Bytes → DdosMitigation → DdosMitigation × Bool
unfolding exceeds_connection_limit is_blocked block_ip count_blocked
allow_connection now ip d =
    let info = find_or new_info ip d.ip_connections in
    let d' = record d { ip_connections = put ip info d.ip_connections } in
    if is_blocked now ip d
    then (count_blocked d, false)
    else if exceeds_connection_limit info
    then (count_blocked (block_ip now ip 3600 d'), false)
    else (d', true)

-- only the last 100 times are kept
keep_recent : List ℕ → List ℕ
keep_recent times = if ltb 100 (length times) then drop 1 times else times

pub record_connection : ℕ → Bytes → DdosMitigation → DdosMitigation
unfolding keep_recent
record_connection now ip d =
    let info = find_or new_info ip d.ip_connections in
    record d {
      ip_connections =
          put ip
            (record {
              active_connections = (info.active_connections + 1) % 2 ^ 64;
              total_connections = (info.total_connections + 1) % 2 ^ 64;
              last_connection_time = now;
              connection_timestamps = keep_recent (info.connection_timestamps ++ now ∷ []);
            })
            d.ip_connections;
      total_connections = (d.total_connections + 1) % 2 ^ 64;
    }

pub close_connection : Bytes → DdosMitigation → DdosMitigation
close_connection ip d = elim (find ip d.ip_connections) [
  | none ↦ d
  | some info ↦
      if ltb 0 info.active_connections
      then record d {
        ip_connections =
            put ip (record info { active_connections = info.active_connections - 1 })
              d.ip_connections;
      }
      else d
]

-- the loops of detect_attack_pattern
unfoldable recent_connections : ℕ → Map Bytes IpConnectionInfo → ℕ
recent_connections now [] = 0
recent_connections now ((ip, info) ∷ rest) =
    length (select (λ t. leb (sub_64 now t) 60) info.connection_timestamps)
    + recent_connections now rest

unfoldable detect_attack_pattern : ℕ → DdosMitigation → Bool
detect_attack_pattern now d = leb attack_threshold (recent_connections now d.ip_connections)

-- the last loop of cleanup_expired_blocks
unblock_all : List Bytes → Map Bytes BlockEntry → Map Bytes BlockEntry
unblock_all [] blocked = blocked
unblock_all (ip ∷ ips) blocked = unblock_all ips (erase ip blocked)

pub cleanup_expired_blocks : ℕ → DdosMitigation → DdosMitigation
unfolding unblock_all
cleanup_expired_blocks now d =
    let to_unblock = map (λ e. e.0) (select (λ e. leb (e.1).expiry_time now) d.blocked_ips) in
    record d { blocked_ips = unblock_all to_unblock d.blocked_ips }
