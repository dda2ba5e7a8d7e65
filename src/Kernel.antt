-- ===== src/Kernel.antt =====
-- src/kernel/mod.rs: the checks that the kernel wrapper makes itself. libbitcoinkernel, behind the
-- foreign interface, is not part of the repository: its handles are opaque, and what its calls
-- return is an argument.
pub mod Validity
pub mod Foreign
pub mod Wrapper
pub mod Startup
pub mod Session
pub mod Genesis
pub mod Release
pub mod Calls
pub mod Lifetime
mod Tests
use btck_rust_node.Common.{
  zero, ◌*◌, ℕ, ◌+◌, Bool, true, false, ◌&&◌, not, Option, none, some, List, [], ◌∷◌, ltb,
  if◌then◌else◌, Result, ok, err, HashSet, contains, add,
}
use btck_rust_node.Common.Int.{ℤ, pos, negsuc}
use btck_rust_node.Common.Words.{u64_mod}
use btck_rust_node.Chain.{OutPoint, outpoint_key, TxIn, Transaction}

-- The raw pointers that the wrapper owns.
pub record Kernel : Type 0 where
  pub ctx : ℕ
  pub chain_params : ℕ
  pub chainman : ℕ

-- The rejection reasons.
pub data Reason : Type 0 where
  too_small no_inputs no_outputs output_value_too_high : Reason
  total_output_value_too_high duplicate_input : Reason

pub data KernelError : Type 0 where
  encoding_error output_value_overflow : KernelError
  create_failed : KernelError
  process_failed : ℤ → ℤ → KernelError

abbrev pub Verdict : Type 0
Verdict = Result KernelError (Bool × Option Reason)

abbrev pub max_money : ℕ
max_money = 21_000_000 * 100_000_000

-- The loop over the outputs: the total, or the early return.
unfoldable pub sum_outputs : ℕ → List ℕ → Result Verdict ℕ
sum_outputs total_out [] = ok total_out
sum_outputs total_out (value ∷ rest) =
    if ltb max_money value
    then err (ok (false, some output_value_too_high))
    else (if ltb (total_out + value) u64_mod
        then sum_outputs (total_out + value) rest
        else err (err output_value_overflow))

-- `seen_prevouts.insert(..)` fails on some input.
unfoldable pub repeats_prevout : HashSet OutPoint → List TxIn → Bool
repeats_prevout seen [] = false
repeats_prevout seen (i ∷ rest) =
    if contains i.previous_output seen
    then true
    else repeats_prevout (add i.previous_output seen) rest

-- The checks behind the totals.
unfoldable pub check_total : Transaction → Result Verdict ℕ → Verdict
unfolding repeats_prevout
check_total tx (err v) = v
check_total tx (ok total_out) =
    if ltb max_money total_out
    then ok (false, some total_output_value_too_high)
    else (if repeats_prevout [] tx.input then ok (false, some duplicate_input) else ok (true, none))

abbrev pub is_empty {ℓ} : {A : Type ℓ} → List A → Bool
is_empty [] = true
is_empty (x ∷ xs) = false

unfoldable pub validate_transaction : Transaction → Verdict
unfolding sum_outputs check_total
validate_transaction tx = elim tx.encoded_len [
  | none ↦ err encoding_error
  | some size ↦
      if ltb size 60
      then ok (false, some too_small)
      else (if is_empty tx.input
          then ok (false, some no_inputs)
          else (if is_empty tx.output
              then ok (false, some no_outputs)
              else check_total tx (sum_outputs 0 tx.output)))
]

-- A stub in the source: the inputs count as available.
unfoldable pub check_tx_inputs : Transaction → Result KernelError (Bool × ℕ)
check_tx_inputs tx = ok (true, 0)

-- rc == -1 && new_block == 0
unfoldable pub is_already_known : ℤ → ℤ → Bool
is_already_known (negsuc zero) (pos zero) = true
is_already_known _ _ = false

unfoldable pub is_zero : ℤ → Bool
is_zero (pos zero) = true
is_zero _ = false

-- What `process_block` makes of the return code and flag of `btck_chainstate_manager_process_block`.
unfoldable pub process_result : ℤ → ℤ → Result KernelError (Unit {0})
unfolding is_already_known is_zero
process_result rc new_block =
    if not (is_zero rc) && not (is_already_known rc new_block)
    then err (process_failed rc new_block)
    else ok tt
