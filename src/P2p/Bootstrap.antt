-- ===== src/P2p/Bootstrap.antt =====
-- New connections of `PeerManager` (src/p2p/legacy.rs): `add_outbound` from the socket on,
-- `bootstrap`, and the handler of `Addr`. What an attempt to connect meets is an argument: `none` is
-- a socket that does not open. The DNS gives a list of addresses or fails. The addresses of `Addr`
-- are given as the standard library maps them.
pub mod Limits
mod Tests
use btck_rust_node.Common.{
  ℕ, ◌+◌, ◌%◌, ◌≡◌, ◌≤◌, refl, ◌∙◌, Bool, true, false, ◌||◌, Option, none, some, List, [], ◌∷◌,
  ◌++◌, length, leb, ◌==◌, max, if◌then◌else◌, nat_key, contains, add, HashSet, Result, ok, err,
  arith, Bool-cases, Result-cases, if-elim, length-insert-le,
}
use btck_rust_node.Common.Int.{ℤ}
use btck_rust_node.Chain.{SocketAddr}
use btck_rust_node.P2p.Headers.{
  PeerManager, Message, add_outbound, request_blocks, note_peer, select_sync_peer,
  is_better_sync_peer,
}
use btck_rust_node.P2p.Handshake.{Received, Peer, connected, HandshakeError, handshake}

-- What an attempt to connect meets: the writes that go through, and what the peer sends.
pub record Line : Type 0 where
  pub delivers : ℕ → Bool
  pub inbox : List (Option Received)

-- An address, what an attempt to connect to it meets, and the clock after the handshake.
pub record Target : Type 0 where
  pub addr : SocketAddr
  pub line : Option Line
  pub now : ℕ

-- ServiceFlags::NETWORK
abbrev pub has_network : ℕ → Bool
has_network services = services % 2 == 1

-- The manager, what it sent, and whether the call succeeded.
pub record Dialled : Type 0 where
  pub manager : PeerManager
  pub messages : List Message
  pub is_ok : Bool

unfoldable pub dial : PeerManager → Target → Line → Dialled
dial m t line =
    let (p, r) = handshake line.delivers connected m.start_height line.inbox in
    let added = add_outbound m t.addr p.their_start_height (has_network p.their_services) t.now in
    elim r [
      | err e ↦ record { manager = m; messages = []; is_ok = false }
      | ok _ ↦ record { manager = added.0; messages = added.1; is_ok = true }
    ]

unfoldable pub connect_outbound : PeerManager → Target → Dialled
connect_outbound m t =
    if contains t.addr m.peers
    then record { manager = m; messages = []; is_ok = true }
    else elim t.line [
      | none ↦ record { manager = m; messages = []; is_ok = false }
      | some line ↦ dial m t line
    ]

-- The state of `bootstrap`.
pub record Boot : Type 0 where
  pub manager : PeerManager
  pub messages : List Message
  pub attempts : ℕ
  pub connections : ℕ

abbrev pub max_boot : ℕ
max_boot = 6

abbrev pub max_attempts : ℕ
max_attempts = 30

abbrev pub is_enough : Boot → Bool
is_enough s = leb max_boot s.connections || leb max_attempts s.attempts

-- An address of a seed.
unfoldable pub try_address : Target → Boot → Boot
try_address t s =
    let tried = record s { attempts = s.attempts + 1 } in
    let d = connect_outbound s.manager t in
    if contains t.addr s.manager.peers then tried else record tried {
      manager = d.manager;
      messages = s.messages ++ d.messages;
      connections = if d.is_ok then s.connections + 1 else s.connections;
    }

unfoldable pub try_addresses : List Target → Boot → Boot
try_addresses [] s = s
try_addresses (t ∷ ts) s =
    let rest = try_addresses ts (try_address t s) in if is_enough s then s else rest

-- The seeds; `none` is a name that the DNS does not resolve. Once there are enough connections or
-- attempts, the code returns or breaks.
unfoldable pub try_seeds : List (Option (List Target)) → Boot → Boot
try_seeds [] s = s
try_seeds (none ∷ seeds) s = let rest = try_seeds seeds s in if is_enough s then s else rest
try_seeds (some ts ∷ seeds) s =
    let s' = try_addresses ts s in
    let rest = try_seeds seeds s' in if is_enough s' then s' else rest

unfoldable pub bootstrap_peers : PeerManager → List (Option (List Target)) → Boot
bootstrap_peers m seeds =
    try_seeds seeds (record { manager = m; messages = []; attempts = 0; connections = 0 })

-- MAX_OUTBOUND_FROM_ADDR
abbrev pub max_outbound_from_addr : ℕ
max_outbound_from_addr = 8

-- The handler of `Addr`, with `added`.
unfoldable pub on_addr : List Target → ℕ → PeerManager → PeerManager × List Message
on_addr [] added m = (m, [])
on_addr (t ∷ ts) added m =
    let d = connect_outbound m t in
    let is_known = contains t.addr m.peers in
    let m' = if is_known then m else d.manager in
    let sent = if is_known then [] else d.messages in
    let added' = if is_known then added else added + 1 in
    let rest = on_addr ts added' m' in
    if leb max_outbound_from_addr (length m.peers)
    then (m, [])
    else (if leb 2 added' then (m', sent) else (rest.0, sent ++ rest.1))
