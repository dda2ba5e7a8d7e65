-- ===== src/P2p/Tests.antt =====
-- Runs of src/p2p on small inputs.
use btck_rust_node.Common.{
  ℕ, ◌+◌, ◌-◌, ◌≤◌, ◌<◌, ◌^◌, ◌≡◌, refl, true, Option, none, some, List, [], ◌∷◌, ◌++◌, length,
  keys, lookup, insert, nat_key, arith, inl, ℕ_discrete, ◌⊎◌, Has, All,
}
use btck_rust_node.Common.Int.{pos}
use btck_rust_node.Chain.{BlockHash}
use btck_rust_node.P2p.Inventory.{
  tx, inv_id_key, InvId-discrete, InventoryManager, new_inventory, get_requests, check_timeouts,
  announced_by, announce, want, announcers, select, count_peer, mark_requested,
}
use btck_rust_node.P2p.Inventory.Sound.{IsSound}
use btck_rust_node.P2p.Inventory.Requests.{get_requests-Has}
use btck_rust_node.P2p.Inventory.Timeouts.{
  Call, announces, requests, times_out, check_timeouts_retry, run-new_inventory-IsSound,
}
use btck_rust_node.P2p.Inventory.Timeouts
use btck_rust_node.P2p.Downloader.{Downloader, new_downloader, push_many, slots, poll_assign}
use btck_rust_node.P2p.Downloader.Windows.{
  IsWithin, new_downloader-IsWithin, push_many-IsWithin, poll_assign-IsWithin, poll_assign_lem,
}
use btck_rust_node.P2p.Headers.{
  BlockHeader, PeerManager, with_start_height, fresh, load, last, extend_headers, build_locator,
}
use btck_rust_node.P2p.Headers.Chain.{
  IsChain, Follows, with_start_height-IsChain, extend_headers-IsChain,
}
use btck_rust_node.P2p.Headers.Tree.{hashes_of}
use btck_rust_node.P2p.Headers.Locator.{IsLocator, build_locator-IsLocator}
use btck_rust_node.P2p.Headers.Events.{
  Event, adds_outbound, headers, inv, block, reassigns, run, block_inv,
}
use btck_rust_node.P2p.Headers.Order.{received, total_received, run-with_start_height-IsChain}
use btck_rust_node.P2p.Headers.Phases.{IsPhased}
use btck_rust_node.P2p.Headers.Rooted.{run-with_start_height-IsPhased}

abbrev queued : Downloader
queued = push_many (new_downloader 16 4) (1 ∷ 2 ∷ 3 ∷ 4 ∷ 5 ∷ 6 ∷ [])

queued-IsWithin : IsWithin queued
queued-IsWithin =
    push_many-IsWithin (1 ∷ 2 ∷ 3 ∷ 4 ∷ 5 ∷ 6 ∷ []) (new_downloader 16 4)
      (new_downloader-IsWithin 16 4 (omega arith))

abbrev assigned : Downloader
assigned = (poll_assign queued 9 100).0

assigned-IsWithin : IsWithin assigned
assigned-IsWithin = poll_assign-IsWithin queued 9 100 queued-IsWithin

poll_assign_lem_example :
    (queued.queue ≡ (poll_assign queued 9 100).1 ++ assigned.queue)
    × ((assigned.queue ≡ [])
        ⊎ (queued.global_window ≤ length assigned.inflight)
        ⊎ (queued.per_peer_window ≤ slots 9 assigned.per_peer))
poll_assign_lem_example = poll_assign_lem queued 9 100

abbrev no_checkpoints : ℕ → Option BlockHash
no_checkpoints h = none

-- A node whose genesis block is 50.
abbrev started : PeerManager
started = with_start_height 50 no_checkpoints [] (pos 0)

abbrev batch : List BlockHeader
batch =
    record { block_hash = 51; prev_blockhash = 50 }
    ∷ record { block_hash = 52; prev_blockhash = 51 }
    ∷ []

started_small : length started.header_chain + length batch < 2 ^ 31
unfolding with_start_height fresh load
started_small = omega arith

started_rooted : 0 < length started.recent_chain
unfolding with_start_height fresh load
started_rooted = omega arith

extend_headers-IsChain_example :
    (m' : PeerManager) × (new : List BlockHeader) × (extend_headers batch started
      ≡ some (m', length new))
    × IsChain 50 m'
    × (m'.header_chain ≡ started.header_chain ++ new)
    × (length new ≤ length batch)
    × ((tip : BlockHash) × (last started.recent_chain ≡ some tip) × All (Follows tip batch) new)
extend_headers-IsChain_example =
    extend_headers-IsChain 50 batch started (with_start_height-IsChain 50 no_checkpoints (pos 0))
      started_small

build_locator-IsLocator_example :
    (loc : List BlockHash) × (build_locator started ≡ some loc) × IsLocator started.recent_chain loc
build_locator-IsLocator_example = build_locator-IsLocator started started_rooted

-- A peer is connected, sends headers, announces a block and sends it.
abbrev events : List Event
events =
    adds_outbound 9 (pos 2) true 100
    ∷ headers 9 batch 101
    ∷ inv 9 (block_inv 52 ∷ []) 102
    ∷ block 9 52 103
    ∷ reassigns 300
    ∷ []

run-with_start_height-IsPhased_example :
    (m : PeerManager) × (run events 100 (with_start_height 50 no_checkpoints batch (pos 0))
      ≡ some m)
    × IsPhased m
    × ((new : List BlockHash) × (m.recent_chain ≡ 50 ∷ hashes_of batch ++ new))
run-with_start_height-IsPhased_example =
    run-with_start_height-IsPhased 50 no_checkpoints batch (pos 0) events 100

abbrev calls : List Call
calls = announces (tx 5) 9 ∷ []

-- A transaction is announced by a peer.
abbrev told : InventoryManager
told = Timeouts.run calls new_inventory

run-new_inventory-IsSound_example : IsSound told
run-new_inventory-IsSound_example = run-new_inventory-IsSound calls

asks : Has (tx 5) (get_requests told 9 10).1
unfolding Timeouts.run Timeouts.step announce want announcers announced_by select count_peer
    get_requests new_inventory lookup insert mark_requested InvId-discrete ℕ_discrete
asks = inl refl

get_requests-Has_example :
    Has (tx 5) (keys told.wanted)
    × (announced_by told.announced (tx 5) 9 ≡ true)
    × (lookup (tx 5) (get_requests told 9 10).0.in_flight
        ≡ some (record { peer = 9; requested_at = 10; attempts = 1 }))
    × (lookup (tx 5) (get_requests told 9 10).0.wanted ≡ none)
get_requests-Has_example = get_requests-Has told 9 10 (tx 5) asks

abbrev asked : InventoryManager
asked = Timeouts.run (announces (tx 5) 9 ∷ requests 9 10 ∷ []) new_inventory

asked_flies :
    lookup (tx 5) asked.in_flight ≡ some (record { peer = 9; requested_at = 10; attempts = 1 })
unfolding Timeouts.run Timeouts.step
asked_flies = (get_requests-Has told 9 10 (tx 5) asks).2

asked_late : asked.request_timeout < 200 - 10
unfolding Timeouts.run Timeouts.step announce want announcers announced_by select count_peer
    get_requests new_inventory lookup insert mark_requested InvId-discrete ℕ_discrete
asked_late = omega arith

check_timeouts_retry_example :
    (lookup (tx 5) (check_timeouts asked 200).0.wanted ≡ some tt)
    × (lookup (tx 5) (check_timeouts asked 200).0.in_flight ≡ none)
check_timeouts_retry_example =
    check_timeouts_retry (announces (tx 5) 9 ∷ requests 9 10 ∷ []) 200 (tx 5)
      (record { peer = 9; requested_at = 10; attempts = 1 }) asked_flies asked_late

events_small : total_received events < 2 ^ 31
unfolding total_received received
events_small = omega arith

run-with_start_height-IsChain_example :
    (m : PeerManager) × (run events 100 started ≡ some m) × IsChain 50 m
run-with_start_height-IsChain_example =
    run-with_start_height-IsChain 50 no_checkpoints (pos 0) events 100 events_small
