-- ===== src/P2p/Handshake/Tests.antt =====
-- Runs of `Peer::handshake` (src/p2p/legacy.rs).
use btck_rust_node.Common.{ℕ, ◌≡◌, refl, Bool, true, Option, some, List, [], ◌∷◌, ok}
use btck_rust_node.Common.Int.{pos}
use btck_rust_node.P2p.Handshake.{
  version, wtxid_relay, verack, send_headers, send_cmpct, get_addr, Received, version_from,
  verack_from, other, connected, send, send_then, on_version, on_verack, on_message, finish,
  shake_loop, handshake,
}
use btck_rust_node.P2p.Handshake.Outcome.{IsShaken, all_modern, handshake-IsShaken}

abbrev all_go : ℕ → Bool
all_go n = true

-- A peer that sends its Version, something else and its Verack.
abbrev polite : List (Option Received)
polite = some (version_from 9 (pos 800) 70016) ∷ some other ∷ some verack_from ∷ []

handshake_test :
    (handshake all_go connected (pos 5) polite).0.sent
    ≡ version (pos 5) ∷ wtxid_relay ∷ verack ∷ send_headers ∷ send_cmpct ∷ get_addr ∷ []
unfolding handshake connected send send_then on_version on_verack on_message finish shake_loop
handshake_test = refl

handshake_succeeds : (handshake all_go connected (pos 5) polite).1 ≡ ok tt
unfolding handshake connected send send_then on_version on_verack on_message finish shake_loop
handshake_succeeds = refl

handshake-IsShaken_example :
    (let r = handshake all_go connected (pos 5) polite in IsShaken (all_modern polite) r.0 r.1)
handshake-IsShaken_example = handshake-IsShaken all_go (pos 5) polite
