-- ===== src/Kernel/Startup.antt =====
-- `Kernel::new` of src/kernel/mod.rs, with the objects that each early return destroys, and a whole
-- session: `new`, calls, and `Drop`. The directories are the bytes of the absolute paths, and the
-- encoded genesis block of a network is a parameter.
use Prim.Native.String.{String}
use btck_rust_node.Common.{ℕ, Bool, true, false, Option, none, some, List, [], ◌∷◌, if◌then◌else◌}
use btck_rust_node.Common.Int.{ℤ, pos}
use btck_rust_node.ChainParams.{Network}
use btck_rust_node.Kernel.{Kernel, is_zero}
use btck_rust_node.Kernel.Foreign.{
  Library, Action, ◌>>=◌, ◌>>◌, pure, raise, attempt, make, destroy, set, ask, Making,
  context_options_create, chain_parameters_create, context_create,
  chainstate_manager_options_create, chainstate_manager_create, set_chainparams,
  update_block_tree_db_in_memory, update_chainstate_db_in_memory, set_worker_threads_num,
  chain_parameters, context, context_options, chainman_options,
}
use btck_rust_node.Kernel.Wrapper.{
  WrapperError, no_context_options, no_chain_parameters, no_context, no_chainman_options,
  no_chainman, genesis_encoding, chain_type, genesis_network, c_string, unwrap_or, lift,
  of_chainman, get_height, active_height, get_best_block_hash, get_block_hash, import_blocks,
  process_block, drop_kernel,
}

-- A call of a `Kernel`.
pub data Request : Type 0 where
  heights best_hash : Request
  hash_at : ℤ → Request
  imports_files : List (List ℕ) → Request
  processes_block : List ℕ → Request

module _ {W : Type 0} (lib : Library W) where
  -- An object, or what is cleaned up and the error.
  unfoldable pub make_or :
      Making → Action W WrapperError (Unit {0}) → WrapperError → Action W WrapperError ℕ
  unfolding make
  make_or m cleanup e =
      make lib m >>= λ made. elim made [ none ↦ cleanup >> raise e | some h ↦ pure h ]

  -- Up to "Context created successfully": the context and the chain parameters.
  unfoldable pub open_context : ℕ → Action W WrapperError (ℕ × ℕ)
  unfolding make_or destroy set
  open_context t = do
    opts ← make_or context_options_create (pure tt) no_context_options
    params ←
        make_or (chain_parameters_create t) (destroy lib context_options opts) no_chain_parameters
    set lib (set_chainparams opts params)
    ctx ←
        make_or (context_create opts)
          (destroy lib context_options opts >> destroy lib chain_parameters params) no_context
    destroy lib context_options opts
    pure (ctx, params)

  -- From the creation of the options to "Chainstate manager created successfully".
  unfoldable pub open_manager : ℕ → ℕ → List ℕ → List ℕ → Action W WrapperError Kernel
  unfolding make_or destroy set
  open_manager ctx params data_c blocks_c = do
    opts ←
        make_or (chainstate_manager_options_create ctx data_c blocks_c)
          (destroy lib context ctx >> destroy lib chain_parameters params) no_chainman_options
    set lib (update_block_tree_db_in_memory opts 0)
    set lib (update_chainstate_db_in_memory opts 0)
    set lib (set_worker_threads_num opts 2)
    manager ←
        make_or (chainstate_manager_create opts)
          (destroy lib context ctx
            >> destroy lib chain_parameters params
            >> destroy lib chainman_options opts)
          no_chainman
    destroy lib chainman_options opts
    pure (record { ctx = ctx; chain_params = params; chainman = manager })

  -- The two paths, of which an error returns at once, and the chainstate manager.
  unfoldable pub open_chainman : ℕ × ℕ → List ℕ → List ℕ → Action W WrapperError Kernel
  unfolding open_manager c_string
  open_chainman (ctx, params) datadir blocksdir = do
    data_c ← lift (c_string datadir)
    blocks_c ← lift (c_string blocksdir)
    open_manager ctx params data_c blocks_c

  -- The chain is there and it has a genesis block.
  abbrev pub asks_genesis : Kernel → Option ℤ → Action W WrapperError Bool
  asks_genesis k none = pure false
  asks_genesis k (some height) = ask lib (of_chainman k) lib.has_genesis

  abbrev pub finds_genesis : Kernel → Action W WrapperError Bool
  finds_genesis k = ask lib (of_chainman k) lib.active_chain_height >>= asks_genesis k

  -- `?` on the encoding drops the kernel; an error of `process_block` is printed only.
  unfoldable pub process_encoded : Kernel → Option (List ℕ) → Action W WrapperError (Unit {0})
  unfolding process_block drop_kernel
  process_encoded k none = drop_kernel lib k >> raise genesis_encoding
  process_encoded k (some raw) = attempt (process_block lib k raw) >> pure tt

  module _ (genesis : Network → Option (List ℕ)) where
    unfoldable pub process_genesis : Kernel → ℕ → Action W WrapperError (Unit {0})
    unfolding process_encoded genesis_network
    process_genesis k t = process_encoded k (genesis (genesis_network t))

    -- Whether the genesis block was found.
    unfoldable pub ensure_genesis : Kernel → ℕ → Bool → Action W WrapperError (Unit {0})
    unfolding process_genesis active_height
    ensure_genesis k t true = do
      height ← attempt (active_height lib k)
      if is_zero (unwrap_or (pos 0) height) then process_genesis k t else pure tt
    ensure_genesis k t false = process_genesis k t

    -- From "Checking for genesis block..." on.
    unfoldable pub check_genesis : Kernel → ℕ → Action W WrapperError Kernel
    unfolding ensure_genesis ask
    check_genesis k t = do found ← finds_genesis k; ensure_genesis k t found; pure k

    -- `Kernel::new`.
    unfoldable pub new_kernel : String → List ℕ → List ℕ → Action W WrapperError Kernel
    unfolding open_context open_chainman check_genesis chain_type
    new_kernel chain datadir blocksdir = do
      opened ← open_context (chain_type chain)
      k ← open_chainman opened datadir blocksdir
      check_genesis k (chain_type chain)

  -- One call; its answer is left out.
  unfoldable pub perform : Kernel → Request → Action W WrapperError (Unit {0})
  unfolding active_height get_best_block_hash get_block_hash import_blocks process_block
  perform k heights = get_height lib k >> pure tt
  perform k best_hash = get_best_block_hash lib k >> pure tt
  perform k (hash_at h) = get_block_hash lib k h >> pure tt
  perform k (imports_files paths) = import_blocks lib k paths >> pure tt
  perform k (processes_block raw) = process_block lib k raw

  -- Calls, whether they fail or not.
  unfoldable pub perform_each : Kernel → List Request → Action W WrapperError (Unit {0})
  unfolding perform
  perform_each k [] = pure tt
  perform_each k (r ∷ rs) = attempt (perform k r) >> perform_each k rs

  -- A whole session: a new kernel, calls, and the drop at the end of its scope.
  unfoldable pub session :
      (Network → Option (List ℕ))
      → String
      → List ℕ
      → List ℕ
      → List Request
      → Action W WrapperError (Unit {0})
  unfolding new_kernel perform_each drop_kernel
  session genesis chain datadir blocksdir requests = do
    k ← new_kernel genesis chain datadir blocksdir
    perform_each k requests
    drop_kernel lib k
