-- ===== src/Rpc/Tests.antt =====
-- Runs of src/rpc/blockchain.rs on small inputs.
use btck_rust_node.Common.{
  ◌≡◌, refl, ◌≤◌, true, false, some, List, [], ◌∷◌, Result, ok, length, lookup, arith, any,
  ℕ_discrete,
}
use btck_rust_node.Common.Int.{pos, negsuc}
use btck_rust_node.Kernel.Foreign.{Library, Process, all_live, chainman, context, chain_parameters}
use btck_rust_node.Kernel.Wrapper.{of_chainman}
use btck_rust_node.Mempool.Policy.{default_policy}
use btck_rust_node.Mempool.Pool.{new_pool}
use btck_rust_node.Rpc.{
  AppState, Answer, StatusCode, RpcRequest, getblockcount, getblockhash, stop, flushstate, serve,
}
use btck_rust_node.Rpc.Served.{is_stop, Served, serve-Served}

-- A library with a chain of height 7 that knows no other block.
abbrev still : Library (Unit {0})
still = record {
  create = λ m w. (false, w);
  destroys = λ k h w. w;
  sets = λ x w. w;
  active_chain_height = λ w. some (pos 7);
  has_genesis = λ w. true;
  tip_hash = λ w. some (some 99);
  hash_by_height = λ h w. some (some 98);
  processes = λ h w. ((negsuc 0, pos 0), w);
  imports = λ paths w. (pos 0, w);
}

abbrev running : Process (Unit {0})
running = record {
  world = tt;
  live = (5, chainman) ∷ (3, context) ∷ (2, chain_parameters) ∷ [];
  next = 6;
  session_blocks = pos 0;
  log = [];
}

abbrev app : AppState
unfolding new_pool
app = record {
  kernel = record { ctx = 3; chain_params = 2; chainman = 5 };
  mempool = new_pool default_policy;
  shutdown_tx = true;
  signals = 0;
  arcs = 2;
}

app_live : all_live (of_chainman app.kernel) running.live ≡ true
unfolding all_live lookup ℕ_discrete app
app_live = refl

app_held : 1 ≤ app.arcs
unfolding app
app_held = omega arith

abbrev asked : List RpcRequest
asked = getblockcount ∷ stop ∷ getblockhash (pos 3) ∷ flushstate ∷ stop ∷ []

serve-Served_example :
    (answers : List (Result StatusCode Answer)) × (final : AppState) × (serve still asked app
        running
      ≡ some (ok (answers, final), running))
    × (length answers ≡ length asked)
    × Served app (any is_stop asked) final
serve-Served_example = serve-Served still asked app running app_held app_live
