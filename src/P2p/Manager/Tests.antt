-- ===== src/P2p/Manager/Tests.antt =====
-- Runs of `P2PManager` (src/p2p/manager.rs).
use btck_rust_node.Common.{◌≡◌, refl, inl, inr, true, length, arith, insert, ℕ_discrete}
use btck_rust_node.P2p.Manager.{
  P2pManager, new_p2p, start_add, leave, end_add, starts, ends, Reachable, begins, steps,
}
use btck_rust_node.P2p.Manager.Runs.{IsLimited, Reachable-IsLimited}

-- Two calls that connect at once.
abbrev two_at_once : P2pManager → P2pManager
two_at_once m = end_add (end_add (start_add (start_add m 1) 2) 1 true) 2 true

-- They exceed a limit of one peer.
too_many : length (two_at_once (record new_p2p { max_peers = 1 })).peers ≡ 2
unfolding new_p2p start_add end_add leave insert ℕ_discrete
too_many = refl

reached : Reachable 2 (two_at_once new_p2p)
unfolding new_p2p start_add end_add leave
reached =
    steps
      (steps (steps (steps begins (starts 1 (omega arith))) (starts 2 (omega arith)))
        (ends 1 true (inr (inl refl))))
      (ends 2 true (inl refl))

Reachable-IsLimited_example : IsLimited 2 (two_at_once new_p2p)
Reachable-IsLimited_example = Reachable-IsLimited reached
