-- ===== src/Ddos/Limits.antt =====
-- No address has more connections than the limit, and an address that asks for more is blocked.
use cashew.Prelude.{
  ℕ, ◌+◌, ◌%◌, ◌^◌, ◌<◌, ◌≤◌, ◌≡◌, refl, ◌∙◌, Bool, true, false, Bytes, bytes_eq, bytes_eq_iff,
  bytes_ordered, beq_refl, List, [], ◌∷◌, ltb, leb, arith, Bool-cases, if◌then◌else◌,
}
use cashew.Prelude.Map.{Map, put, find_or, find_or-put, find-put}
use cashew.Crypto.{ascii}
use cashew.Ddos
use cashew.Ddos.{
  IpConnectionInfo, BlockEntry, DdosMitigation, new_info, max_connections_per_ip, is_blocked,
  allow_connection, record_connection, block_ip, exceeds_connection_limit, count_blocked,
}
use cashew.Ddos.Coordinator
use cashew.Ddos.Coordinator.{
  AttackPreventionCoordinator, validate_incoming_connection, on_connection_established,
  on_connection_closed, cleanup, mark_as_forked, enable_ddos_mitigation, enable_fork_detection,
}

-- What the attack coordinator is called for. `blocks` is a call of the mitigation's own block_ip.
pub data Call : Type 0 where
  connects : ℕ → Bytes → Bytes → Call
  closes : Bytes → Call
  blocks : ℕ → Bytes → ℕ → Call
  cleans : ℕ → Call
  forks : Bytes → Call
  enables_mitigation : Bool → Call
  enables_fork_detection : Bool → Call

-- A connection is validated, and then established if it may be.
step : Call → AttackPreventionCoordinator → AttackPreventionCoordinator
unfolding validate_incoming_connection on_connection_established on_connection_closed cleanup
step (connects now ip node) c =
    let (c', allowed) = validate_incoming_connection now ip node c in
    if allowed then on_connection_established now ip c' else c'
step (closes ip) c = on_connection_closed ip c
step (blocks now ip duration) c = record c {
  ddos_mitigation = block_ip now ip duration c.ddos_mitigation;
}
step (cleans now) c = cleanup now c
step (forks node) c = mark_as_forked node c
step (enables_mitigation enable) c = enable_ddos_mitigation enable c
step (enables_fork_detection enable) c = enable_fork_detection enable c

pub run : List Call → AttackPreventionCoordinator → AttackPreventionCoordinator
unfolding step
run [] c = c
run (x ∷ xs) c = run xs (step x c)

-- the active connections of an address
abbrev pub active : Bytes → DdosMitigation → ℕ
active ip d = (find_or new_info ip d.ip_connections).active_connections

abbrev Bounded : DdosMitigation → Type 0
Bounded d = (ip : Bytes) → active ip d ≤ max_connections_per_ip

active-put :
    (ip j : Bytes) (info : IpConnectionInfo) (m : Map Bytes IpConnectionInfo)
    → (find_or new_info j (put ip info m)).active_connections ≡ (
        if bytes_eq ip j
        then info.active_connections
        else (find_or new_info j m).active_connections)
active-put ip j info m = ground (arith, find_or-put new_info ip j info m)

active-record_connection :
    (now : ℕ) (ip : Bytes) (d : DdosMitigation) (j : Bytes)
    → active j (record_connection now ip d)
      ≡ (if bytes_eq ip j then (active ip d + 1) % 2 ^ 64 else active j d)
unfolding record_connection
active-record_connection now ip d j = active-put ip j _ d.ip_connections

-- Asking writes the entry that it reads.
active-rewrite :
    (ip : Bytes) (m : Map Bytes IpConnectionInfo) (j : Bytes)
    → find_or new_info j (put ip (find_or new_info ip m) m) ≡ find_or new_info j m
active-rewrite ip m j =
    ground (arith, find_or-put new_info ip j (find_or new_info ip m) m, bytes_eq_iff ip j)

active-allow_connection :
    (now : ℕ) (ip : Bytes) (d : DdosMitigation) (j : Bytes)
    → active j (allow_connection now ip d).0 ≡ active j d
unfolding allow_connection count_blocked block_ip
active-allow_connection now ip d j =
    ground (arith, active-rewrite ip d.ip_connections j, Bool-cases (is_blocked now ip d))

is_blocked-block_ip :
    (now later duration : ℕ) (ip : Bytes) (d : DdosMitigation)
    → is_blocked later ip (block_ip now ip duration d) ≡ ltb later ((now + duration) % 2 ^ 64)
unfolding is_blocked block_ip
is_blocked-block_ip now later duration ip d =
    let entry : BlockEntry = record {
      block_time = now;
      expiry_time = (now + duration) % 2 ^ 64;
      reason = ascii "Rate limit exceeded";
    } in
    ground (arith, find-put ip ip entry d.blocked_ips, beq_refl ip)

is_blocked-count_blocked :
    (now : ℕ) (ip : Bytes) (d : DdosMitigation)
    → is_blocked now ip (count_blocked d) ≡ is_blocked now ip d
unfolding is_blocked count_blocked
is_blocked-count_blocked now ip d = refl

-- the state in which the entry of an address has been read
abbrev noted : Bytes → DdosMitigation → DdosMitigation
noted ip d = record d {
  ip_connections = put ip (find_or new_info ip d.ip_connections) d.ip_connections;
}

-- An address with ten active connections, or more, that asks for another one is refused, and it is blocked
-- exactly until an hour has passed (on the 64-bit clock), if it was not blocked before.
over_limit_blocks :
    (now later : ℕ) (ip : Bytes) (d : DdosMitigation)
    → is_blocked now ip d ≡ false
    → 10 ≤ active ip d
    → ((allow_connection now ip d).1 ≡ false)
      × (is_blocked later ip (allow_connection now ip d).0 ≡ ltb later ((now + 3600) % 2 ^ 64))
unfolding allow_connection exceeds_connection_limit
over_limit_blocks now later ip d free many =
    let over : leb max_connections_per_ip (active ip d) ≡ true = ground (arith, many) in
    rw (free, over)
      (
        refl,
        is_blocked-count_blocked later ip (block_ip now ip 3600 (noted ip d))
            ∙ is_blocked-block_ip now later 3600 ip (noted ip d),
      )

below_allowed :
    (now : ℕ) (ip : Bytes) (d : DdosMitigation)
    → is_blocked now ip d ≡ false
    → active ip d < 10
    → (allow_connection now ip d).1 ≡ true
unfolding allow_connection exceeds_connection_limit
below_allowed now ip d free few = ground (arith, free, few)

still_free :
    (now : ℕ) (ip : Bytes) (d : DdosMitigation)
    → is_blocked now ip d ≡ false
    → active ip d < 10
    → is_blocked now ip (allow_connection now ip d).0 ≡ false
unfolding allow_connection exceeds_connection_limit
still_free now ip d free few =
    let under : leb max_connections_per_ip (active ip d) ≡ false = ground (arith, few) in
    rw (free, under) (unfold is_blocked in free)

-- Where an address that is not blocked has nine active connections, and asks for two more before
-- either is recorded, both are allowed, and then it has eleven.
pub asked_twice :
    (now : ℕ) (ip : Bytes) (d : DdosMitigation)
    → is_blocked now ip d ≡ false
    → active ip d ≡ 9
    → ((allow_connection now ip d).1 ≡ true)
      × ((allow_connection now ip (allow_connection now ip d).0).1 ≡ true)
      × (active ip (
            record_connection now ip
              (record_connection now ip (allow_connection now ip (allow_connection now ip d).0).0))
          ≡ 11)
asked_twice now ip d free nine =
    let d₁ = (allow_connection now ip d).0 in
    let d₂ = (allow_connection now ip d₁).0 in
    (
      below_allowed now ip d free (omega (arith, nine)),
      below_allowed now ip d₁ (still_free now ip d free (omega (arith, nine)))
          (omega (arith, nine, active-allow_connection now ip d ip)),
      ground (
        arith,
        nine,
        active-allow_connection now ip d ip,
        active-allow_connection now ip d₁ ip,
        active-record_connection now ip d₂ ip,
        active-record_connection now ip (record_connection now ip d₂) ip,
        beq_refl ip,
      ),
    )
