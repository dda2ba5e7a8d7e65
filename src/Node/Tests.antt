-- ===== src/Node/Tests.antt =====
-- A run of src/main.rs on small inputs.
use btck_rust_node.Common.{
  ◌≡◌, refl, ℕ, zero, suc, true, Option, none, some, List, [], ◌∷◌, ltb, lookup, ok, ◌≤◌,
}
use btck_rust_node.Common.Int.{pos}
use btck_rust_node.Chain.{Transaction}
use btck_rust_node.ChainParams.{Network}
use btck_rust_node.Kernel.Foreign.{Library, Process}
use btck_rust_node.Kernel.Lifetime.{After, IsSound}
use btck_rust_node.Mempool.Entry.{new_entry}
use btck_rust_node.Mempool.Policy.{is_size_acceptable, is_fee_acceptable, check_ancestor_limits}
use btck_rust_node.Mempool.Pool.{
  Mempool, new_pool, add_tx, admit, kernel_check, find_conflicts, make_room, finish_add,
  calculate_ancestors, find_parents,
}
use btck_rust_node.Mempool.Books.{IsKept, new_pool-IsKept}
use btck_rust_node.Node.Fee.{process_tx-le}
use btck_rust_node.Rpc.{stop, getblockcount}
use btck_rust_node.Node.{
  NodeEvent, Setup, gets_message, gets_tx, gets_block, gets_request, policy_for, process_tx,
  starts_p2p, main_node,
}
use btck_rust_node.Node.Whole.{Whole}
use btck_rust_node.Node.Main.{main_node-Whole}
use btck_rust_node.P2p.Headers.Events.{starts_round}

-- A library that makes every object and adds every block; its state is the number of blocks.
abbrev ready : Library ℕ
ready = record {
  create = λ m w. (true, w);
  destroys = λ k h w. w;
  sets = λ x w. w;
  active_chain_height = λ w. elim w [ zero ↦ none | suc n ↦ some (pos n) ];
  has_genesis = λ w. ltb 0 w;
  tip_hash = λ w. some (some w);
  hash_by_height = λ h w. none;
  processes = λ h w. ((pos 0, pos 1), suc w);
  imports = λ paths w. (pos 0, w);
}

abbrev encoded : Network → Option (List ℕ)
encoded net = some (1 ∷ [])

abbrev began : Process ℕ
began = record { world = 0; live = []; next = 1; session_blocks = pos 0; log = [] }

began-IsSound : IsSound began
unfolding lookup
began-IsSound = (tt, λ h le. refl)

abbrev sent : Transaction
sent = record {
  input = record { previous_output = record { txid = 7; vout = 0 }; sequence = 4294967293 } ∷ [];
  output = 900 ∷ [];
  compute_txid = 11;
  vsize = 100;
  weight = 400;
  encoded_len = some 100;
}

abbrev happened : List NodeEvent
happened =
    gets_tx sent 50
    ∷ gets_block (4 ∷ 5 ∷ [])
    ∷ gets_message starts_round
    ∷ gets_request getblockcount
    ∷ gets_request stop
    ∷ []

abbrev setup : Setup
setup = record { genesis_hash = λ net. 1; checkpoint = λ net h. none; loaded = λ net. [] }

main_node-Whole_example :
    After
      (main_node ready encoded setup "signet" [] (47 ∷ []) (47 ∷ 98 ∷ []) happened began)
      (Whole ready (policy_for "signet") [])
main_node-Whole_example =
    main_node-Whole ready setup "signet" encoded [] (47 ∷ []) (47 ∷ 98 ∷ []) happened began
      began-IsSound

abbrev first : Mempool
unfolding new_pool
first = new_pool (policy_for "signet")

first_takes : process_tx first sent 50 ≡ ((process_tx first sent 50).0, ok 11)
unfolding process_tx first add_tx admit lookup kernel_check is_size_acceptable policy_for
    is_fee_acceptable new_entry find_conflicts make_room finish_add check_ancestor_limits
    calculate_ancestors find_parents
first_takes = refl

signet_known : starts_p2p [] "signet" ≡ true
unfolding starts_p2p
signet_known = refl

first_policy : first.policy ≡ policy_for "signet"
unfolding first
first_policy = refl

first-IsKept : IsKept first
unfolding first
first-IsKept = new_pool-IsKept (policy_for "signet")

process_tx-le_example : sent.vsize ≤ 1000
process_tx-le_example =
    process_tx-le "signet" first sent 50 signet_known first_policy first-IsKept first_takes
