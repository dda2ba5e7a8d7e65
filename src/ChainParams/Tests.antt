-- ===== src/ChainParams/Tests.antt =====
-- Runs of src/chainparams.rs.
use Prim.Native.String.{String}
use btck_rust_node.Common.{ℕ, ◌≡◌, ◌⊎◌, refl, Option, none, some}
use btck_rust_node.Chain.{BlockHash}
use btck_rust_node.ChainParams.{
  bitcoin, testnet, for_network, mainnet_params, last_loop, get_last_checkpoint_before,
}
use btck_rust_node.ChainParams.Checkpoints.{HasNone, IsLast, get_last_checkpoint_before-IsLast}

-- Every text is read as the same hash.
abbrev any_hash : String → Option BlockHash
any_hash s = some 7

last_checkpoint_test :
    get_last_checkpoint_before any_hash (for_network any_hash bitcoin).checkpoints 100000
    ≡ some (74000, 7)
unfolding get_last_checkpoint_before last_loop for_network mainnet_params
last_checkpoint_test = refl

get_last_checkpoint_before-IsLast_example :
    (let cps = (for_network any_hash testnet).checkpoints in
      let r = get_last_checkpoint_before any_hash cps 250000 in
      ((r ≡ none) × HasNone any_hash cps 250000)
      ⊎ ((found : ℕ × BlockHash) × (r ≡ some found) × IsLast any_hash cps 250000 found))
get_last_checkpoint_before-IsLast_example =
    get_last_checkpoint_before-IsLast any_hash testnet 250000
