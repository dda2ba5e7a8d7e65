-- ===== src/Rpc.antt =====
-- The handlers of src/rpc/blockchain.rs on the state of src/rpc/mod.rs. A hash or a txid stands for
-- its text, `none` for the empty text, and whether a text is a block hash is an argument. Of the
-- numbers in floating point, those that are computed are left out.
use Prim.Native.String.{String}
use btck_rust_node.Common.{
  ℕ, suc, ◌+◌, ◌-◌, Bool, true, false, Option, none, some, List, [], ◌∷◌, ◌==◌, if◌then◌else◌,
  nat_key, Result, ok, err, insert_all, length, map,
}
use btck_rust_node.Common.Int.{ℤ, pos, negsuc}
use btck_rust_node.Chain.{Txid, BlockHash}
use btck_rust_node.Kernel.{Kernel}
use btck_rust_node.Kernel.Foreign.{Library, Process, Action, ◌>>=◌, ◌>>◌, pure, raise, attempt}
use btck_rust_node.Kernel.Wrapper.{
  WrapperError, unwrap_or, get_height, get_best_block_hash, get_block_hash, drop_kernel,
  active_height,
}
use btck_rust_node.Mempool.Pool.{Mempool, get_all_txids, size}
pub mod Reads
pub mod Served
mod Tests

pub data StatusCode : Type 0 where
  internal_server_error not_found bad_request : StatusCode

pub record BlockchainInfo : Type 0 where
  pub chain : String
  pub blocks : ℤ
  pub headers : ℤ
  pub bestblockhash : Option BlockHash
  pub difficulty : ℕ
  pub mediantime : ℤ
  pub verificationprogress : ℕ
  pub initialblockdownload : Bool
  pub size_on_disk : ℕ

pub record ChainTip : Type 0 where
  pub height : ℤ
  pub hash : Option BlockHash
  pub branchlen : ℤ
  pub status : String

pub record MempoolInfo : Type 0 where
  pub loaded : Bool
  pub size : ℕ
  pub bytes : ℕ
  pub usage : ℕ
  pub maxmempool : ℕ

-- What stands for each transaction in a verbose answer.
pub record Detail : Type 0 where
  pub vsize : ℕ
  pub fee : ℕ
  pub time : ℕ

pub record TxOutSetInfo : Type 0 where
  pub height : ℤ
  pub bestblock : Option BlockHash
  pub transactions : ℕ
  pub txouts : ℕ
  pub bogosize : ℕ
  pub hash_serialized_2 : String
  pub disk_size : ℕ
  pub total_amount : ℕ

-- The values that the handlers answer.
pub data Answer : Type 0 where
  blockchain_info : BlockchainInfo → Answer
  result_hash : BlockHash → Answer
  result_height : ℤ → Answer
  result_number : ℕ → Answer
  result_flag : Bool → Answer
  result_text : String → Answer
  not_implemented : String → Option BlockHash → Answer
  chain_tips : List ChainTip → Answer
  mempool_info : MempoolInfo → Answer
  txids : List Txid → Answer
  detailed : List (Txid × Detail) → Answer
  null : Answer
  txout_set_info : TxOutSetInfo → Answer
  flushed : ℤ → String → Answer

-- The state that the handlers share: `shutdown_tx` holds the sender or not, `signals` counts what
-- the receiver gets, and `arcs` are the references to the kernel that stand outside the request.
pub record AppState : Type 0 where
  pub kernel : Kernel
  pub mempool : Mempool
  pub shutdown_tx : Bool
  pub signals : ℕ
  pub arcs : ℕ

-- The requests, by handler; `getblockstats` and `getchaintxstats` have no route.
pub data RpcRequest : Type 0 where
  getblockchaininfo getbestblockhash getblockcount : RpcRequest
  getblockhash : ℤ → RpcRequest
  getblock getblockheader : Option BlockHash → RpcRequest
  getblockstats getchaintxstats getchaintips getdifficulty getmempoolinfo : RpcRequest
  getrawmempool : Bool → RpcRequest
  gettxout gettxoutsetinfo verifychain stop flushstate : RpcRequest

-- `map_err(|_| status)`.
abbrev pub or_status : {W A : Type 0} → StatusCode → Action W WrapperError A → Action W StatusCode A
or_status e m s = elim (m s) [
  | none ↦ none
  | some (ok a, t) ↦ some (ok a, t)
  | some (err d, t) ↦ some (err e, t)
]

-- The error is a value from here on.
abbrev pub answer_of :
    {W A : Type 0} → Action W WrapperError A → Action W StatusCode (Result WrapperError A)
answer_of m s = elim (m s) [ none ↦ none | some (r, t) ↦ some (ok r, t) ]

-- `map(|h| h.to_string())` and the empty text for an error.
abbrev pub text_or_empty : Result WrapperError BlockHash → Option BlockHash
text_or_empty (ok hash) = some hash
text_or_empty (err e) = none

abbrev pub is_natural : ℤ → Bool
is_natural (pos n) = true
is_natural (negsuc n) = false

abbrev pub answer_info : ℤ → Option BlockHash → Answer
answer_info height best = blockchain_info (record {
  chain = "signet";
  blocks = height;
  headers = height;
  bestblockhash = best;
  difficulty = 0;
  mediantime = pos 0;
  verificationprogress = 1;
  initialblockdownload = false;
  size_on_disk = 0;
})

abbrev pub answer_tips : ℤ → Option BlockHash → Answer
answer_tips height hash =
    chain_tips (record { height = height; hash = hash; branchlen = pos 0; status = "active" } ∷ [])

abbrev pub answer_txout_set : ℤ → Option BlockHash → Answer
answer_txout_set height bestblock = txout_set_info (record {
  height = height;
  bestblock = bestblock;
  transactions = 0;
  txouts = 0;
  bogosize = 0;
  hash_serialized_2 = "";
  disk_size = 0;
  total_amount = 0;
})

abbrev pub answer_mempool : Mempool → Answer
answer_mempool m = mempool_info (record {
  loaded = true;
  size = size m;
  bytes = m.total_size;
  usage = m.total_size;
  maxmempool = m.policy.max_size;
})

abbrev pub no_detail : Detail
no_detail = record { vsize = 0; fee = 0; time = 0 }

unfoldable pub answer_txids : Mempool → Bool → Answer
answer_txids m verbose =
    if verbose
    then detailed (insert_all (get_all_txids m) no_detail [])
    else txids (get_all_txids m)

-- `parse::<BlockHash>()`, and the placeholder.
abbrev pub answer_block : {W : Type 0} → String → Option BlockHash → Action W StatusCode Answer
answer_block text none = raise bad_request
answer_block text (some hash) = pure (not_implemented text (some hash))

-- `tx_guard.take()` and `send`.
unfoldable pub after : AppState → RpcRequest → AppState
after state stop =
    if state.shutdown_tx
    then record state { shutdown_tx = false; signals = suc state.signals }
    else state
after state _ = state

module _ {W : Type 0} (lib : Library W) where
  -- The height and the best hash, which `getchaintips` and `gettxoutsetinfo` answer with.
  abbrev pub with_tip : Kernel → (ℤ → Option BlockHash → Answer) → Action W StatusCode Answer
  with_tip k f = do
    height ← or_status internal_server_error (get_height lib k)
    hash ← answer_of (get_best_block_hash lib k)
    pure (f height (text_or_empty hash))

  unfoldable pub blockchain_info_of : Kernel → Action W StatusCode Answer
  unfolding active_height get_best_block_hash
  blockchain_info_of k = do
    height ← or_status internal_server_error (get_height lib k)
    if is_natural height
        then (answer_of (get_best_block_hash lib k) >>= λ hash.
            pure (answer_info height (text_or_empty hash)))
        else pure (answer_info height none)

  -- `drop` of one of the references: the last one drops the kernel.
  unfoldable pub drop_arc : AppState → Action W StatusCode (Unit {0})
  unfolding drop_kernel
  drop_arc state =
      if state.arcs == 0 then answer_of (drop_kernel lib state.kernel) >> pure tt else pure tt

  unfoldable pub flush : AppState → Action W StatusCode Answer
  unfolding drop_arc active_height
  flush state = do
    height ← answer_of (get_height lib state.kernel)
    drop_arc state
    pure (
        flushed (unwrap_or (negsuc 0) height)
          "State flushed to disk. Restart node to continue syncing.")

  -- What a handler answers; how `stop` changes the state is `after`.
  unfoldable pub handle : AppState → RpcRequest → Action W StatusCode Answer
  unfolding blockchain_info_of active_height get_best_block_hash get_block_hash answer_txids flush
  handle state getblockchaininfo = blockchain_info_of state.kernel
  handle state getbestblockhash =
      or_status internal_server_error (get_best_block_hash lib state.kernel) >>= λ hash.
      pure (result_hash hash)
  handle state getblockcount =
      or_status internal_server_error (get_height lib state.kernel) >>= λ height.
      pure (result_height height)
  handle state (getblockhash height) =
      or_status not_found (get_block_hash lib state.kernel height) >>= λ hash.
      pure (result_hash hash)
  handle state (getblock parsed) = answer_block "getblock not yet implemented" parsed
  handle state (getblockheader parsed) = answer_block "getblockheader not yet implemented" parsed
  handle state getblockstats = pure (not_implemented "getblockstats not yet implemented" none)
  handle state getchaintxstats = pure (not_implemented "getchaintxstats not yet implemented" none)
  handle state getchaintips = with_tip state.kernel answer_tips
  handle state getdifficulty = pure (result_number 1)
  handle state getmempoolinfo = pure (answer_mempool state.mempool)
  handle state (getrawmempool verbose) = pure (answer_txids state.mempool verbose)
  handle state gettxout = pure null
  handle state gettxoutsetinfo = with_tip state.kernel answer_txout_set
  handle state verifychain = pure (result_flag true)
  handle state stop = pure (
      result_text
        (if state.shutdown_tx then "Bitcoin server stopping" else "Shutdown already in progress"))
  handle state flushstate = flush state

  -- Requests one after the other, with what each is answered.
  unfoldable pub serve :
      List RpcRequest → AppState → Action W StatusCode (List (Result StatusCode Answer) × AppState)
  unfolding handle after
  serve [] state = pure ([], state)
  serve (r ∷ rs) state = do
    answer ← attempt (handle state r)
    rest ← serve rs (after state r)
    pure (answer ∷ rest.0, rest.1)
