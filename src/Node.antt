-- ===== src/Node.antt =====
-- src/main.rs: what the program sets up from the name of the chain, the two callbacks that it gives
-- to the peer-to-peer layer, and a whole run of the node.
use Prim.Native.String.{String}
use text.Mathlib.Text.{◌==◌ as str_eq}
use btck_rust_node.Common.{
  ℕ, Bool, true, false, ◌||◌, not, Option, none, some, List, [], ◌∷◌, if◌then◌else◌, Result, ok,
  err,
}
use btck_rust_node.Common.Int.{pos}
use btck_rust_node.Chain.{BlockHash, Txid, Transaction}
use btck_rust_node.ChainParams.{Network, bitcoin, testnet, signet, regtest}
use btck_rust_node.Kernel.{Kernel, is_empty}
use btck_rust_node.Kernel.Foreign.{Library, Process, Action, ◌>>=◌, ◌>>◌, pure, attempt}
use btck_rust_node.Kernel.Wrapper.{
  WrapperError, unwrap_or, get_height, active_height, process_block, drop_kernel,
}
use btck_rust_node.Kernel.Startup.{new_kernel}
use btck_rust_node.Mempool.Policy.{MempoolPolicy, mainnet}
use btck_rust_node.Mempool.Policy
use btck_rust_node.Mempool.Pool.{Mempool, PoolError, with_kernel, add_tx}
use btck_rust_node.P2p.Headers.{PeerManager, BlockHeader, with_start_height, with_block_processor}
use btck_rust_node.P2p.Headers.Events.{Event, Handled, step}
use btck_rust_node.Rpc.{AppState, RpcRequest, handle, after}
pub mod Whole
pub mod Main
pub mod Fee
mod Tests

unfoldable pub policy_for : String → MempoolPolicy
policy_for chain =
    if str_eq chain "main" || str_eq chain "mainnet"
    then mainnet
    else (if str_eq chain "testnet" || str_eq chain "signet"
        then Policy.testnet
        else Policy.regtest)

-- Peers are given, or the chain has seeds.
unfoldable pub starts_p2p : List String → String → Bool
starts_p2p peers chain =
    not (is_empty peers)
    || str_eq chain "main"
    || str_eq chain "mainnet"
    || str_eq chain "testnet"
    || str_eq chain "signet"

unfoldable pub p2p_network : String → Network
p2p_network chain =
    if str_eq chain "main" || str_eq chain "mainnet"
    then bitcoin
    else (if str_eq chain "testnet"
        then testnet
        else (if str_eq chain "signet" then signet else regtest))

-- The callback for transactions: the height and the fee are fixed.
unfoldable pub process_tx : Mempool → Transaction → ℕ → Mempool × Result PoolError Txid
process_tx m tx now = add_tx m tx 1000 0 now

-- The references to the kernel that stand beside a request's: those of `main`, the pool and the
-- server, and that of the callback for blocks.
unfoldable pub first_state : Bool → String → Kernel → AppState
unfolding policy_for with_kernel
first_state p2p chain k = record {
  kernel = k;
  mempool = with_kernel (policy_for chain) k;
  shutdown_tx = true;
  signals = 0;
  arcs = if p2p then 4 else 3;
}

-- The node: what the server shares, and the peer manager if the layer is started, with the time of
-- the last headers.
pub record NodeState : Type 0 where
  pub app : AppState
  pub pm : Option PeerManager
  pub last_headers_ts : ℕ

-- What `with_start_height` reads: genesis and the checkpoints of the network, and the headers on disk.
pub record Setup : Type 0 where
  pub genesis_hash : Network → BlockHash
  pub checkpoint : Network → ℕ → Option BlockHash
  pub loaded : Network → List BlockHeader

-- What happens while the node runs: a peer sends a transaction or a block, a client
-- asks, or the event loop goes on.
pub data NodeEvent : Type 0 where
  gets_tx : Transaction → ℕ → NodeEvent
  gets_block : List ℕ → NodeEvent
  gets_request : RpcRequest → NodeEvent
  -- What the event loop of the peer manager does next.
  gets_message : Event → NodeEvent

-- A panic of the loop has no result.
abbrev pub loop_step : Event → NodeState → Option NodeState
loop_step e n = elim n.pm [
  | none ↦ some n
  | some m ↦ elim (step e n.last_headers_ts m) [
    | none ↦ none
    | some r ↦ some (record n { pm = some r.manager; last_headers_ts = r.last_headers_ts })
  ]
]

abbrev pub must : {W E A : Type 0} → Option A → Action W E A
must none s = none
must (some a) s = some (ok a, s)

-- The result is left out.
abbrev pub ignore : {W E F A : Type 0} → Action W E A → Action W F (Unit {0})
ignore m s = elim (m s) [ none ↦ none | some (r, t) ↦ some (ok tt, t) ]

module _ {W : Type 0} (lib : Library W) where
  unfoldable pub node_step : NodeEvent → NodeState → Action W WrapperError NodeState
  unfolding process_tx process_block handle after step
  node_step (gets_tx tx now) n =
      pure (record n { app = record n.app { mempool = (process_tx n.app.mempool tx now).0 } })
  node_step (gets_block raw) n = ignore (process_block lib n.app.kernel raw) >> pure n
  node_step (gets_request r) n =
      ignore (handle lib n.app r) >> pure (record n { app = after n.app r })
  node_step (gets_message e) n = must (loop_step e n)

  unfoldable pub run_node : List NodeEvent → NodeState → Action W WrapperError NodeState
  unfolding node_step
  run_node [] n = pure n
  run_node (e ∷ es) n = node_step e n >>= λ m. run_node es m

  -- The peer manager from the kernel's height on, if the layer is started.
  unfoldable pub start_p2p :
      Setup → String → Bool → Kernel → Action W WrapperError (Option PeerManager)
  unfolding active_height p2p_network with_start_height with_block_processor
  start_p2p setup chain false k = pure none
  start_p2p setup chain true k =
      let net = p2p_network chain in
      attempt (get_height lib k) >>= λ height. pure (
        some (
          with_block_processor (
            with_start_height (setup.genesis_hash net) (setup.checkpoint net) (setup.loaded net)
              (unwrap_or (pos 0) height))))

  -- The node until the shutdown, and the last drop of the kernel.
  unfoldable pub run_until :
      Setup → String → Bool → List NodeEvent → Kernel → Action W WrapperError NodeState
  unfolding run_node first_state start_p2p drop_kernel
  run_until setup chain p2p events k = do
    pm ← start_p2p setup chain p2p k
    n ← run_node events (record { app = first_state p2p chain k; pm = pm; last_headers_ts = 0 })
    drop_kernel lib k
    pure n

  -- `main`.
  unfoldable pub main_node :
      (Network → Option (List ℕ))
      → Setup
      → String
      → List String
      → List ℕ
      → List ℕ
      → List NodeEvent
      → Action W WrapperError NodeState
  unfolding new_kernel run_until starts_p2p
  main_node genesis setup chain peers datadir blocksdir events = do
    k ← new_kernel lib genesis chain datadir blocksdir
    run_until setup chain (starts_p2p peers chain) events k
