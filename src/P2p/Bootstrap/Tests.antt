-- ===== src/P2p/Bootstrap/Tests.antt =====
-- Runs of `bootstrap` and of the handler of `Addr` (src/p2p/legacy.rs), and the theorem on the headers
-- file at a concrete encoding.
use btck_rust_node.Common.{
  ℕ, ◌+◌, ◌≡◌, ◌≤◌, refl, true, Option, none, some, List, [], ◌∷◌, ◌++◌, length, max, arith, lookup,
  insert, ℕ_discrete,
}
use btck_rust_node.Common.Int.{pos}
use btck_rust_node.P2p.Headers.{
  BlockHeader, PeerManager, with_start_height, fresh, load, add_outbound, note_peer,
  select_sync_peer, is_better_sync_peer,
}
use btck_rust_node.P2p.Headers.Phases.{IsPhased}
use btck_rust_node.P2p.Headers.Runs.{with_start_height-IsPhased}
use btck_rust_node.P2p.HeadersFile.{
  save_headers_to_disk, append_each, start_from_disk, start_from_disk-append_each,
}
use btck_rust_node.P2p.Handshake.{
  version_from, verack_from, connected, send, send_then, on_version, on_verack, on_message, finish,
  shake_loop, handshake,
}
use btck_rust_node.P2p.Bootstrap.{
  Line, Target, dial, connect_outbound, try_address, try_addresses, try_seeds, bootstrap_peers,
  max_outbound_from_addr, on_addr,
}
use btck_rust_node.P2p.Bootstrap.Limits.{IsBooted, on_addr-IsPhased, bootstrap_peers-IsBooted}

abbrev started : PeerManager
started = with_start_height 50 (λ h. none) [] (pos 0)

started-IsPhased : IsPhased started
started-IsPhased = with_start_height-IsPhased 50 (λ h. none) [] (pos 0)

-- A line on which the handshake succeeds.
abbrev good_line : Line
good_line = record {
  delivers = λ n. true;
  inbox = some (version_from 9 (pos 800) 70016) ∷ some verack_from ∷ [];
}

abbrev targets : List Target
targets =
    record { addr = 1; line = some good_line; now = 5 }
    ∷ record { addr = 2; line = none; now = 5 }
    ∷ record { addr = 3; line = some good_line; now = 6 }
    ∷ []

-- The second address does not answer, and counts all the same.
on_addr_test : length (on_addr targets 0 started).0.peers ≡ 1
unfolding on_addr connect_outbound dial handshake connected send send_then on_version on_verack
    on_message finish shake_loop add_outbound note_peer select_sync_peer is_better_sync_peer
    with_start_height fresh load lookup insert ℕ_discrete
on_addr_test = refl

bootstrap_test : (bootstrap_peers started (none ∷ some targets ∷ [])).connections ≡ 2
unfolding bootstrap_peers try_seeds try_addresses try_address connect_outbound dial handshake
    connected send send_then on_version on_verack on_message finish shake_loop add_outbound
    note_peer select_sync_peer is_better_sync_peer with_start_height fresh load lookup insert
    ℕ_discrete
bootstrap_test = refl

on_addr-IsPhased_example :
    (let m' = (on_addr targets 0 started).0 in
      IsPhased m'
      × (length m'.peers ≤ length started.peers + 2)
      × (length m'.peers ≤ max (length started.peers) max_outbound_from_addr))
on_addr-IsPhased_example = on_addr-IsPhased targets started started-IsPhased

bootstrap_peers-IsBooted_example :
    IsBooted (length started.peers) (bootstrap_peers started (none ∷ some targets ∷ []))
bootstrap_peers-IsBooted_example =
    bootstrap_peers-IsBooted (none ∷ some targets ∷ []) started started-IsPhased

-- A header as 80 numbers, of which two matter.
abbrev zeros : List ℕ
zeros =
    0 ∷ 0 ∷ 0 ∷ 0 ∷ 0 ∷ 0 ∷ 0 ∷ 0 ∷ 0 ∷ 0 ∷ 0 ∷ 0 ∷ 0 ∷ 0 ∷ 0 ∷ 0 ∷ 0 ∷ 0 ∷ 0 ∷ 0 ∷ 0 ∷ 0 ∷ 0 ∷ 0
    ∷ 0 ∷ 0 ∷ 0 ∷ 0 ∷ 0 ∷ 0 ∷ 0 ∷ 0 ∷ 0 ∷ 0 ∷ 0 ∷ 0 ∷ 0 ∷ 0 ∷ 0 ∷ 0 ∷ 0 ∷ 0 ∷ 0 ∷ 0 ∷ 0 ∷ 0 ∷ 0 ∷ 0
    ∷ 0 ∷ 0 ∷ 0 ∷ 0 ∷ 0 ∷ 0 ∷ 0 ∷ 0 ∷ 0 ∷ 0 ∷ 0 ∷ 0 ∷ 0 ∷ 0 ∷ 0 ∷ 0 ∷ 0 ∷ 0 ∷ 0 ∷ 0 ∷ 0 ∷ 0 ∷ 0 ∷ 0
    ∷ 0 ∷ 0 ∷ 0 ∷ 0 ∷ 0 ∷ 0 ∷ []

abbrev write_header : BlockHeader → List ℕ
write_header h = h.block_hash ∷ h.prev_blockhash ∷ zeros

abbrev read_header : List ℕ → Option BlockHeader
read_header (a ∷ b ∷ rest) = some (record { block_hash = a; prev_blockhash = b })
read_header _ = none

write_header-length : (h : BlockHeader) → length (write_header h) ≡ 80
write_header-length h = omega arith

read_header-write_header : (h : BlockHeader) → read_header (write_header h) ≡ some h
read_header-write_header h = refl

abbrev first : BlockHeader
first = record { block_hash = 51; prev_blockhash = 50 }

abbrev second : BlockHeader
second = record { block_hash = 52; prev_blockhash = 51 }

start_from_disk-append_each_example :
    start_from_disk write_header read_header 50
      (λ h. none)
      (some (
        append_each write_header read_header
          (save_headers_to_disk write_header read_header (first ∷ []))
          (second ∷ [])
        ++ 53 ∷ 52 ∷ []))
      (pos 0)
    ≡ with_start_height 50 (λ h. none) (first ∷ second ∷ []) (pos 0)
start_from_disk-append_each_example =
    start_from_disk-append_each write_header read_header write_header-length
      read_header-write_header (first ∷ []) (second ∷ []) (53 ∷ 52 ∷ []) 50 (λ h. none) (pos 0)
      (omega arith)
