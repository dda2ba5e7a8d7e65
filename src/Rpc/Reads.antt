-- ===== src/Rpc/Reads.antt =====
-- The handlers only read: the process and the pool are as before, and the shutdown signal is sent
-- at most once.
use btck_rust_node.Common.{
  ◌≡◌, ◌≤◌, refl, true, Option, none, some, List, ◌==◌, Result, ok, err, nat_key, arith, if-elim,
}
use Prim.Native.String.{String}
use btck_rust_node.Chain.{BlockHash}
use btck_rust_node.Common.Int.{ℤ}
use btck_rust_node.Kernel.{Kernel}
use btck_rust_node.Kernel.Foreign.{
  Handle, Library, Process, Action, ◌>>=◌, pure, ask, call, all_live,
}
use btck_rust_node.Kernel.Wrapper.{
  WrapperError, lift, of_chainman, height_of, active_height, get_height, get_best_block_hash,
  get_block_hash,
}
use btck_rust_node.Rpc.{
  AppState, Answer, StatusCode, RpcRequest, or_status, answer_of, internal_server_error, not_found,
  bad_request, getblockchaininfo, getbestblockhash, getblockcount, getblockhash, getblock,
  getblockheader, getblockstats, getchaintxstats, getchaintips, getdifficulty, getmempoolinfo,
  getrawmempool, gettxout, gettxoutsetinfo, verifychain, stop, flushstate, handle, flush, drop_arc,
  blockchain_info_of, answer_block, with_tip, text_or_empty, is_natural, answer_info,
  not_implemented, result_hash, result_height, answer_tips, answer_txout_set,
}

-- The run has a result and leaves the process as it is, whenever the objects are live.
abbrev pub Reads : {W E A : Type 0} → List Handle → Action W E A → Type 0
Reads {E = E} {A = A} hs m =
    (s : Process _) → all_live hs s.live ≡ true → (r : Result E A) × (m s ≡ some (r, s))

module _ {W E : Type 0} (hs : List Handle) where
  pub bind-Reads :
      {A B : Type 0} (m : Action W E A) (f : A → Action W E B)
      → Reads hs m
      → ((a : A) → Reads hs (f a))
      → Reads hs (m >>= f)
  bind-Reads m f first next s live = go (first s live)
    where
      go : (r : Result E _) × (m s ≡ some (r, s)) → (r : Result E _) × ((m >>= f) s ≡ some (r, s))
      go (ok a, e) = ((next a s live).0, rw (e, ◌>>=◌) (next a s live).1)
      go (err d, e) = (err d, rw (e, ◌>>=◌) refl)

module _ {W A : Type 0} (hs : List Handle) where
  pure-Reads : (a : A) → Reads {W = W} {E = StatusCode} hs (pure a)
  pure-Reads a s live = (ok a, refl)

  pure_call-Reads : (a : A) → Reads {W = W} {E = WrapperError} hs (pure a)
  pure_call-Reads a s live = (ok a, refl)

  lift-Reads : (r : Result WrapperError A) → Reads {W = W} hs (lift r)
  lift-Reads (ok a) s live = (ok a, refl)
  lift-Reads (err e) s live = (err e, refl)

  or_status-Reads :
      (e : StatusCode) (m : Action W WrapperError A) → Reads hs m → Reads hs (or_status e m)
  or_status-Reads e m reads s live = go (reads s live)
    where
      go :
          (r : Result WrapperError A) × (m s ≡ some (r, s))
          → (r : Result StatusCode A) × (or_status e m s ≡ some (r, s))
      go (ok a, q) = (ok a, rw (q, or_status) refl)
      go (err d, q) = (err e, rw (q, or_status) refl)

  answer_of-Reads : (m : Action W WrapperError A) → Reads hs m → Reads hs (answer_of m)
  answer_of-Reads m reads s live = let (r, q) = reads s live in (ok r, rw (q, answer_of) refl)

  ask-Reads : (lib : Library W) (f : W → A) → Reads {E = WrapperError} hs (ask lib hs f)
  unfolding ask call
  ask-Reads lib f s live = (ok (f s.world), rw live refl)

module _ {W : Type 0} (lib : Library W) (k : Kernel) where
  pub active_height-Reads : Reads (of_chainman k) (active_height lib k)
  unfolding active_height
  active_height-Reads =
      bind-Reads (of_chainman k) _ _ (ask-Reads (of_chainman k) lib lib.active_chain_height)
        λ height. pure_call-Reads (of_chainman k) (height_of height)

  get_best_block_hash-Reads : Reads (of_chainman k) (get_best_block_hash lib k)
  unfolding get_best_block_hash
  get_best_block_hash-Reads =
      bind-Reads (of_chainman k) _ _ (ask-Reads (of_chainman k) lib lib.active_chain_height)
        λ chain. bind-Reads (of_chainman k) _ _ (lift-Reads (of_chainman k) _) λ u.
          bind-Reads (of_chainman k) _ _ (ask-Reads (of_chainman k) lib lib.tip_hash)
            λ tip. lift-Reads (of_chainman k) _

  get_block_hash-Reads : (height : ℤ) → Reads (of_chainman k) (get_block_hash lib k height)
  unfolding get_block_hash
  get_block_hash-Reads height =
      bind-Reads (of_chainman k) _ _ (ask-Reads (of_chainman k) lib lib.active_chain_height)
        λ chain. bind-Reads (of_chainman k) _ _ (lift-Reads (of_chainman k) _) λ u.
          bind-Reads (of_chainman k) _ _ (ask-Reads (of_chainman k) lib (lib.hash_by_height height))
            λ entry. lift-Reads (of_chainman k) _

  best-Reads : Reads {W = W} (of_chainman k) (answer_of (get_best_block_hash lib k))
  best-Reads = answer_of-Reads (of_chainman k) (get_best_block_hash lib k) get_best_block_hash-Reads

  height-Reads : Reads (of_chainman k) (or_status internal_server_error (get_height lib k))
  height-Reads =
      or_status-Reads (of_chainman k) internal_server_error (get_height lib k) active_height-Reads

  with_tip-Reads : (f : ℤ → Option _ → Answer) → Reads (of_chainman k) (with_tip lib k f)
  with_tip-Reads f = bind-Reads (of_chainman k) _ _ height-Reads λ height.
      bind-Reads (of_chainman k) _ _ best-Reads
        λ hash. pure-Reads (of_chainman k) (f height (text_or_empty hash))

  blockchain_info_of-Reads : Reads (of_chainman k) (blockchain_info_of lib k)
  unfolding blockchain_info_of
  blockchain_info_of-Reads = bind-Reads (of_chainman k) _ _ height-Reads λ height.
      if-elim (λ (m : Action W StatusCode Answer). Reads (of_chainman k) m) (is_natural height)
        (λ a.
          bind-Reads (of_chainman k) _ _ best-Reads
            λ hash. pure-Reads (of_chainman k) (answer_info height (text_or_empty hash)))
        (λ a. pure-Reads (of_chainman k) (answer_info height none))

  answer_block-Reads :
      (text : String) (parsed : Option BlockHash)
      → Reads {W = W} (of_chainman k) (answer_block text parsed)
  answer_block-Reads text none s live = (err bad_request, refl)
  answer_block-Reads text (some hash) s live = (ok (not_implemented text (some hash)), refl)

  drop_arc-Reads : (state : AppState) → 1 ≤ state.arcs → Reads (of_chainman k) (drop_arc lib state)
  unfolding drop_arc
  drop_arc-Reads state held =
      if-elim (λ (m : Action W StatusCode (Unit {0})). Reads (of_chainman k) m) (state.arcs == 0)
        (λ a. absurd (ground arith)) (λ a. pure-Reads (of_chainman k) tt)

module _ {W : Type 0} (lib : Library W) (state : AppState) where
  flush-Reads : 1 ≤ state.arcs → Reads (of_chainman state.kernel) (flush lib state)
  unfolding flush
  flush-Reads held =
      let k = state.kernel in
      bind-Reads (of_chainman k) _ _
        (answer_of-Reads (of_chainman k) (get_height lib k) (active_height-Reads lib k))
        λ height.
          bind-Reads (of_chainman k) _ _ (drop_arc-Reads lib k state held)
            λ u. pure-Reads (of_chainman k) _

  pub handle-Reads :
      (r : RpcRequest) → 1 ≤ state.arcs → Reads (of_chainman state.kernel) (handle lib state r)
  unfolding handle
  handle-Reads getblockchaininfo held = blockchain_info_of-Reads lib state.kernel
  handle-Reads getbestblockhash held =
      bind-Reads (of_chainman state.kernel) _ _
        (or_status-Reads (of_chainman state.kernel) internal_server_error _
          (get_best_block_hash-Reads lib state.kernel))
        λ hash. pure-Reads (of_chainman state.kernel) (result_hash hash)
  handle-Reads getblockcount held =
      bind-Reads (of_chainman state.kernel) _ _ (height-Reads lib state.kernel)
        λ height. pure-Reads (of_chainman state.kernel) (result_height height)
  handle-Reads (getblockhash height) held =
      bind-Reads (of_chainman state.kernel) _ _
        (or_status-Reads (of_chainman state.kernel) not_found _
          (get_block_hash-Reads lib state.kernel height))
        λ hash. pure-Reads (of_chainman state.kernel) (result_hash hash)
  handle-Reads (getblock parsed) held =
      answer_block-Reads lib state.kernel "getblock not yet implemented" parsed
  handle-Reads (getblockheader parsed) held =
      answer_block-Reads lib state.kernel "getblockheader not yet implemented" parsed
  handle-Reads getblockstats held = λ s live. (_, refl)
  handle-Reads getchaintxstats held = λ s live. (_, refl)
  handle-Reads getchaintips held = with_tip-Reads lib state.kernel answer_tips
  handle-Reads getdifficulty held = λ s live. (_, refl)
  handle-Reads getmempoolinfo held = λ s live. (_, refl)
  handle-Reads (getrawmempool verbose) held = λ s live. (_, refl)
  handle-Reads gettxout held = λ s live. (_, refl)
  handle-Reads gettxoutsetinfo held = with_tip-Reads lib state.kernel answer_txout_set
  handle-Reads verifychain held = λ s live. (_, refl)
  handle-Reads stop held = λ s live. (_, refl)
  handle-Reads flushstate held = flush-Reads held
