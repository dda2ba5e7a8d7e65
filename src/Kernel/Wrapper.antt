-- ===== src/Kernel/Wrapper.antt =====
-- The calls of `Kernel` in src/kernel/mod.rs that use libbitcoinkernel, with every object they make
-- and destroy. What they print is left out, except for the lines of `process_block`.
use Prim.Native.String.{String}
use text.Mathlib.Text.{◌==◌ as str_eq}
use btck_rust_node.Common.{
  ℕ, zero, suc, ensure, map_err, is_some, not, ◌+◌, ◌%◌, Bool, false, ◌&&◌, ◌||◌, Option, none,
  some, List, [], ◌∷◌, ltb, ◌==◌, if◌then◌else◌, Result, ok, err, any,
}
use btck_rust_node.Common.Int.{ℤ, pos, negsuc, pos_part, neg_part}
use btck_rust_node.Common.Words.{as_i32}
use btck_rust_node.Chain.{BlockHash}
use btck_rust_node.ChainParams.{Network, bitcoin, testnet, signet, regtest}
use btck_rust_node.Kernel.{Kernel, KernelError, create_failed, is_already_known, process_result}
use btck_rust_node.Kernel.Foreign.{
  Library, Report, Action, ◌>>=◌, ◌>>◌, pure, raise, attempt, make, destroy, ask, call,
  block_create, block, chainman, context, chain_parameters, Handle, activated_from_index,
  already_active, added, not_advanced, index_activated, already_in_index,
}

pub data WrapperError : Type 0 where
  no_context_options no_chain_parameters no_context : WrapperError
  no_chainman_options no_chainman : WrapperError
  nul_byte : WrapperError
  genesis_encoding : WrapperError
  no_active_chain no_chain_tip no_block_hash block_not_found : WrapperError
  process_error : KernelError → WrapperError

abbrev pub chain_main : ℕ
chain_main = 0

abbrev pub chain_testnet : ℕ
chain_testnet = 1

abbrev pub chain_testnet4 : ℕ
chain_testnet4 = 2

abbrev pub chain_signet : ℕ
chain_signet = 3

abbrev pub chain_regtest : ℕ
chain_regtest = 4

unfoldable pub chain_type : String → ℕ
chain_type chain =
    if str_eq chain "main" || str_eq chain "mainnet"
    then chain_main
    else (if str_eq chain "testnet"
        then chain_testnet
        else (if str_eq chain "testnet4"
            then chain_testnet4
            else (if str_eq chain "signet" then chain_signet else chain_regtest)))

-- The network whose genesis block is processed.
unfoldable pub genesis_network : ℕ → Network
genesis_network t =
    if t == chain_main
    then bitcoin
    else (if t == chain_testnet || t == chain_testnet4
        then testnet
        else (if t == chain_signet then signet else regtest))

-- `CString::new` refuses a zero byte.
unfoldable pub c_string : List ℕ → Result WrapperError (List ℕ)
c_string bytes = if any (λ b. b == 0) bytes then err nul_byte else ok bytes

abbrev pub unwrap_or : {E A : Type 0} → A → Result E A → A
unwrap_or d (ok a) = a
unwrap_or d (err e) = d

abbrev pub lift : {W E A : Type 0} → Result E A → Action W E A
lift (ok a) = pure a
lift (err e) = raise e

-- i32 comparison.
abbrev pub lt_ℤ : ℤ → ℤ → Bool
lt_ℤ a b = ltb (pos_part a + neg_part b) (pos_part b + neg_part a)

abbrev multiple_of : ℕ → ℤ → Bool
multiple_of n z = (pos_part z + neg_part z) % n == 0

-- When `process_block` prints.
unfoldable pub should_log : ℤ → ℤ → Bool
should_log height_after session_count =
    lt_ℤ height_after (pos 20)
    || lt_ℤ session_count (pos 20)
    || lt_ℤ height_after (pos 100) && multiple_of 10 height_after
    || multiple_of 100 height_after

-- `fetch_add(1)`, which wraps around.
unfoldable pub count_up : ℤ → ℤ
count_up (pos n) = as_i32 (n + 1)
count_up (negsuc zero) = pos 0
count_up (negsuc (suc n)) = negsuc n

abbrev is_one : ℤ → Bool
is_one (pos n) = n == 1
is_one (negsuc n) = false

-- The line for a block that is accepted, if one is printed.
unfoldable pub report : ℤ → ℤ → Bool → Bool → Bool → Option Report
report before after known is_new logs =
    let advanced = lt_ℤ before after in
    if known
    then (if logs
        then some (if advanced then activated_from_index before after else already_active after)
        else none)
    else (if is_new
        then (if advanced
            then (if logs
                then some (added before after (not (lt_ℤ (pos 10) after) || multiple_of 100 after))
                else none)
            else some (not_advanced before after))
        else (if logs
            then some (if advanced then index_activated before after else already_in_index after)
            else none))

abbrev print : Option Report → List Report → List Report
print none log = log
print (some line) log = line ∷ log

-- The end of `process_block`: the counter of the session and the line.
unfoldable pub note_block : {W : Type 0} → ℤ → ℤ → Bool → Bool → Action W WrapperError (Unit {0})
unfolding report should_log count_up
note_block before after known is_new s =
    let advanced = lt_ℤ before after in
    some (
      ok tt,
      record s {
        session_blocks = if advanced then count_up s.session_blocks else s.session_blocks;
        log = print (report before after known is_new (should_log after s.session_blocks)) s.log;
      },
    )

-- `collect` of the C strings.
unfoldable pub c_strings : List (List ℕ) → Result WrapperError (List (List ℕ))
unfolding c_string
c_strings [] = ok []
c_strings (p ∷ ps) =
    let later = c_strings ps in
    elim (c_string p) [ err e ↦ err e | ok c ↦ elim later [ err e ↦ err e | ok cs ↦ ok (c ∷ cs) ] ]

abbrev pub of_chainman : Kernel → List Handle
of_chainman k = (k.chainman, chainman) ∷ []

-- The height, -1 without a chain.
abbrev pub height_of : Option ℤ → ℤ
height_of none = negsuc 0
height_of (some n) = n

module _ {W : Type 0} (lib : Library W) where
  unfoldable pub active_height : Kernel → Action W WrapperError ℤ
  unfolding ask
  active_height k =
      ask lib (of_chainman k) lib.active_chain_height >>= λ height. pure (height_of height)

  abbrev pub get_height : Kernel → Action W WrapperError ℤ
  get_height = active_height

  -- The tip or the entry, and its hash: each may be null.
  abbrev hash_or : {E : Type 0} → E → E → Option (Option BlockHash) → Result E BlockHash
  hash_or no_entry no_hash none = err no_entry
  hash_or no_entry no_hash (some none) = err no_hash
  hash_or no_entry no_hash (some (some hash)) = ok hash

  unfoldable pub get_best_block_hash : Kernel → Action W WrapperError BlockHash
  unfolding ask
  get_best_block_hash k = do
    chain ← ask lib (of_chainman k) lib.active_chain_height
    lift (ensure (is_some chain) no_active_chain)
    tip ← ask lib (of_chainman k) lib.tip_hash
    lift (hash_or no_chain_tip no_block_hash tip)

  unfoldable pub get_block_hash : Kernel → ℤ → Action W WrapperError BlockHash
  unfolding ask
  get_block_hash k height = do
    chain ← ask lib (of_chainman k) lib.active_chain_height
    lift (ensure (is_some chain) no_active_chain)
    entry ← ask lib (of_chainman k) (lib.hash_by_height height)
    lift (hash_or block_not_found no_block_hash entry)

  unfoldable pub import_blocks : Kernel → List (List ℕ) → Action W WrapperError ℤ
  unfolding call c_strings
  import_blocks k paths = lift (c_strings paths) >>= λ cs. call lib (of_chainman k) (lib.imports cs)

  -- `process_block` after `btck_block_destroy`.
  unfoldable pub end_block : Kernel → ℤ → ℤ × ℤ → Action W WrapperError (Unit {0})
  unfolding active_height process_result note_block is_already_known
  end_block k before answer = do
    lift (map_err process_error (process_result answer.0 answer.1))
    after ← attempt (active_height k)
    note_block before (unwrap_or (negsuc 0) after) (is_already_known answer.0 answer.1)
        (is_one answer.1)

  -- `process_block` from the check of `btck_block_create` on.
  unfoldable pub use_block : Kernel → ℤ → Option ℕ → Action W WrapperError (Unit {0})
  unfolding call destroy end_block
  use_block k before none = raise (process_error create_failed)
  use_block k before (some ptr) = do
    answer ← call lib ((k.chainman, chainman) ∷ (ptr, block) ∷ []) (lib.processes ptr)
    destroy lib block ptr
    end_block k before answer

  unfoldable pub process_block : Kernel → List ℕ → Action W WrapperError (Unit {0})
  unfolding active_height make use_block
  process_block k raw = do
    before ← attempt (active_height k)
    made ← make lib (block_create raw)
    use_block k (unwrap_or (negsuc 0) before) made

  -- `Drop`.
  unfoldable pub drop_kernel : Kernel → Action W WrapperError (Unit {0})
  unfolding destroy
  drop_kernel k = do
    destroy lib chainman k.chainman
    destroy lib context k.ctx
    destroy lib chain_parameters k.chain_params
