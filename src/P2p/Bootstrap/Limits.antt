-- ===== src/P2p/Bootstrap/Limits.antt =====
-- The limits of `bootstrap` and of the handler of `Addr` (src/p2p/legacy.rs).
use btck_rust_node.Common.{
  ℕ, ◌+◌, ◌≡◌, ◌≤◌, Bool, true, false, Option, none, some, List, [], ◌∷◌, length, leb, max,
  if◌then◌else◌, nat_key, contains, arith, Bool-cases, Option-cases, inl, inr, ◌&&◌, Result-cases,
  if-elim, length-insert-le,
}
use btck_rust_node.Common.Int.{ℤ, pos}
use btck_rust_node.Common.Words.{lt_ℤ}
use btck_rust_node.Chain.{SocketAddr}
use btck_rust_node.P2p.Headers.{
  PeerManager, Message, add_outbound, request_blocks, note_peer, select_sync_peer,
  is_better_sync_peer,
}
use btck_rust_node.P2p.Handshake.{connected, handshake}
use btck_rust_node.P2p.Bootstrap.{
  Line, Target, has_network, Dialled, dial, connect_outbound, Boot, max_boot, max_attempts,
  is_enough, try_address, try_addresses, try_seeds, bootstrap_peers, max_outbound_from_addr,
  on_addr,
}
use btck_rust_node.P2p.Headers.Phases.{IsPhased, add_outbound-IsPhased}

add_outbound-le :
    (m : PeerManager) (addr : SocketAddr) (height : ℤ) (b : Bool) (now : ℕ)
    → length (add_outbound m addr height b now).0.peers ≤ length m.peers + 1
unfolding add_outbound request_blocks note_peer select_sync_peer
add_outbound-le m addr height b now =
    let P : PeerManager × List Message → Type 0 = λ r. length r.0.peers ≤ length m.peers + 1 in
    let Q : PeerManager → Type 0 = λ r. length r.peers ≤ length m.peers + 1 in
    let more = length-insert-le addr tt m.peers in
    let noted = note_peer m addr height in
    if-elim P (contains addr m.peers) (λ t. omega arith)
      (λ t.
        if-elim P m.headers_synced (λ u. more)
          (λ u.
            if-elim Q (b && lt_ℤ (pos 0) height)
              (λ x. if-elim Q (is_better_sync_peer noted height) (λ y. more) (λ y. more))
              (λ x. more)))

-- What an attempt to connect does.
record IsDialled (m : PeerManager) (d : Dialled) : Type 0 where
  pub phased : IsPhased d.manager
  pub grown : length d.manager.peers ≤ length m.peers + (if d.is_ok then 1 else 0)

unchanged :
    (m : PeerManager) (b : Bool)
    → IsPhased m
    → IsDialled m (record { manager = m; messages = []; is_ok = b })
unchanged m b v = record { phased = v; grown = ground arith }

dial-IsDialled :
    (m : PeerManager) (t : Target) (line : Line) → IsPhased m → IsDialled m (dial m t line)
unfolding dial
dial-IsDialled m t line v =
    let (p, r) = handshake line.delivers connected m.start_height line.inbox in
    let network = has_network p.their_services in
    elim (Result-cases r) [
      | inl (u, a) ↦
          rw (a, dial)
            (record {
              phased = add_outbound-IsPhased t.addr p.their_start_height network t.now m v;
              grown = add_outbound-le m t.addr p.their_start_height network t.now;
            })
      | inr (e, a) ↦ rw (a, dial) (unchanged m false v)
    ]

connect_outbound-IsDialled :
    (m : PeerManager) (t : Target) → IsPhased m → IsDialled m (connect_outbound m t)
unfolding connect_outbound
connect_outbound-IsDialled m t v =
    if-elim (IsDialled m) (contains t.addr m.peers) (λ c. unchanged m true v)
      (λ c. elim (Option-cases t.line) [
        | inl a ↦ rw a (unchanged m false v)
        | inr (line, a) ↦ rw a (dial-IsDialled m t line v)
      ])

on_addr-limits :
    (ts : List Target) (added : ℕ) (m : PeerManager)
    → IsPhased m
    → added ≤ 1
    → (let m' = (on_addr ts added m).0 in
        IsPhased m'
        × (length m'.peers + added ≤ length m.peers + 2)
        × (length m'.peers ≤ max (length m.peers) max_outbound_from_addr))
unfolding on_addr
on_addr-limits [] added m v few = (v, omega (arith, few), omega arith)
on_addr-limits (t ∷ ts) added m v few =
    let d = connect_outbound m t in
    let w = connect_outbound-IsDialled m t v in
    let known = contains t.addr m.peers in
    let m' = if known then m else d.manager in
    let added' = if known then added else added + 1 in
    let P : PeerManager × List Message → Type 0 = λ r.
      IsPhased r.0
      × (length r.0.peers + added ≤ length m.peers + 2)
      × (length r.0.peers ≤ max (length m.peers) max_outbound_from_addr) in
    let v' : IsPhased m' = if-elim IsPhased known (λ c. v) (λ c. w.phased) in
    let one : length d.manager.peers ≤ length m.peers + 1 = ground (arith, w.grown) in
    let (grown, few') : (length m'.peers + added ≤ length m.peers + added') × (added' ≤ added + 1) =
      elim (Bool-cases known) [
        | inl c ↦ rw c (omega arith, omega arith)
        | inr c ↦ rw c (omega (arith, one), omega arith)
      ] in
    if-elim P (leb max_outbound_from_addr (length m.peers))
      (λ full. (v, omega (arith, few), omega arith))
      (λ free.
        if-elim P (leb 2 added')
          (λ stop. (v', omega (arith, grown, few', few), ground (arith, grown, few', free)))
          (λ more.
            let (v'', c, e) = on_addr-limits ts added' m' v' (ground (arith, more)) in
            (v'', omega (arith, c, grown), ground (arith, e, grown, few', free))))

-- The handler of `Addr` keeps the phases of the sync, opens at most two connections, and none from
-- eight on.
pub on_addr-IsPhased :
    (ts : List Target) (m : PeerManager)
    → IsPhased m
    → (let m' = (on_addr ts 0 m).0 in
        IsPhased m'
        × (length m'.peers ≤ length m.peers + 2)
        × (length m'.peers ≤ max (length m.peers) max_outbound_from_addr))
on_addr-IsPhased ts m v =
    let (w, few, free) = on_addr-limits ts 0 m v (omega arith) in (w, omega (arith, few), free)

-- What `bootstrap` has done, from a manager with so many peers.
pub record IsBooted (peers : ℕ) (s : Boot) : Type 0 where
  pub phased : IsPhased s.manager
  pub grown : length s.manager.peers ≤ peers + s.connections
  pub few_connections : s.connections ≤ max_boot
  pub few_attempts : s.attempts ≤ max_attempts

try_address-IsBooted :
    (peers : ℕ) (t : Target) (s : Boot)
    → IsBooted peers s
    → is_enough s ≡ false
    → IsBooted peers (try_address t s)
unfolding try_address
try_address-IsBooted peers t s v more =
    let d = connect_outbound s.manager t in
    let w = connect_outbound-IsDialled s.manager t v.phased in
    if-elim (IsBooted peers) (contains t.addr s.manager.peers)
      (λ c. record {
        phased = v.phased;
        grown = v.grown;
        few_connections = v.few_connections;
        few_attempts = ground (arith, more);
      })
      (λ c. record {
        phased = w.phased;
        grown = ground (arith, w.grown, v.grown);
        few_connections = ground (arith, more, v.few_connections);
        few_attempts = ground (arith, more);
      })

try_addresses-IsBooted :
    (peers : ℕ) (ts : List Target) (s : Boot)
    → IsBooted peers s
    → IsBooted peers (try_addresses ts s)
unfolding try_addresses
try_addresses-IsBooted peers [] s v = v
try_addresses-IsBooted peers (t ∷ ts) s v =
    if-elim (IsBooted peers) (is_enough s) (λ c. v)
      (λ c. try_addresses-IsBooted peers ts (try_address t s) (try_address-IsBooted peers t s v c))

try_seeds-IsBooted :
    (peers : ℕ) (seeds : List (Option (List Target))) (s : Boot)
    → IsBooted peers s
    → IsBooted peers (try_seeds seeds s)
unfolding try_seeds
try_seeds-IsBooted peers [] s v = v
try_seeds-IsBooted peers (none ∷ seeds) s v =
    if-elim (IsBooted peers) (is_enough s) (λ c. v) (λ c. try_seeds-IsBooted peers seeds s v)
try_seeds-IsBooted peers (some ts ∷ seeds) s v =
    let w = try_addresses-IsBooted peers ts s v in
    if-elim (IsBooted peers) (is_enough (try_addresses ts s)) (λ c. w)
      (λ c. try_seeds-IsBooted peers seeds (try_addresses ts s) w)

-- Whatever the DNS answers and the peers do, `bootstrap` keeps the phases of the sync, makes at most
-- 30 attempts and at most 6 connections, and opens no connection that it does not count.
pub bootstrap_peers-IsBooted :
    (seeds : List (Option (List Target))) (m : PeerManager)
    → IsPhased m
    → IsBooted (length m.peers) (bootstrap_peers m seeds)
unfolding bootstrap_peers
bootstrap_peers-IsBooted seeds m v = try_seeds-IsBooted (length m.peers) seeds _ (record {
  phased = v;
  grown = omega arith;
  few_connections = omega arith;
  few_attempts = omega arith;
})
