-- ===== src/Mempool/Tests.antt =====
-- Runs of src/mempool on small inputs.
use btck_rust_node.Common.{
  ◌<◌, ◌^◌, ◌↔◌, arith, ◌≡◌, refl, some, List, [], ◌∷◌, ok, err, lookup, insert, remove, adjust_all,
  insert_all, nat_key, inl, ℕ_discrete, ◌⊎◌, ◌≤◌, length, Has,
}
use btck_rust_node.Chain.{OutPoint, outpoint_key, Transaction}
use btck_rust_node.Mempool.Entry.{
  FeeRate, MempoolEntry, new_entry, check_rbf_signaling, from_sat_per_kvb,
}
use btck_rust_node.Mempool.Policy.{
  default_policy, check_ancestor_limits, is_fee_acceptable, is_size_acceptable, PolicyError,
}
use btck_rust_node.Mempool.Pool.{
  handle_replacement, Mempool, already_in_mempool, against_policy, new_pool, add_tx, admit,
  make_room, finish_add, find_conflicts, find_parents, calculate_ancestors, place, attach,
  maybe_evict, kernel_check, drop_each,
}
use btck_rust_node.Mempool.Books.{IsKept, new_pool-IsKept}
use btck_rust_node.Mempool.History.{Call, adds, step, run, run-new_pool-IsKept, run-no_double_spend}
use btck_rust_node.Mempool.Order.{IsForest, run-new_pool-IsForest}
use btck_rust_node.Mempool.Fees.{FeeEstimator, new_estimator, estimate_fee_for_target}
use btck_rust_node.Mempool.Fees.Runs as Fees
use btck_rust_node.Mempool.Fees.Runs.{enters, confirms, run-new_estimator-total}
use btck_rust_node.Mempool.Outcome.{conflicts_of, recorded, TooMany, add_tx-eq-ok, add_tx-eq-err}
use btck_rust_node.Mempool.Eviction.{maybe_evict-le}
use btck_rust_node.Mempool.Ledger.{view, drop_outs}
use btck_rust_node.Mempool.Admission.{Admitted}
use btck_rust_node.Mempool.Replacement.{total_fee, total_vsize, IsReplacing, handle_replacement_iff}
use btck_rust_node.Common.Words.{u64_mod}

abbrev coin : OutPoint
coin = record { txid = 7; vout = 0 }

abbrev payment : Transaction
payment = record {
  input = record { previous_output = coin; sequence = 4294967293 } ∷ [];
  output = 900 ∷ [];
  compute_txid = 11;
  vsize = 100;
  weight = 400;
  encoded_len = some 100;
}

abbrev calls : List Call
calls = adds payment 1000 5 9 ∷ []

abbrev pool : Mempool
pool = run calls (new_pool default_policy)

pool_has : lookup 11 pool.entries ≡ some (new_entry payment 1000 5 9)
unfolding run step add_tx admit make_room finish_add new_entry new_pool find_conflicts find_parents
    calculate_ancestors place attach maybe_evict kernel_check check_ancestor_limits
    is_fee_acceptable is_size_acceptable lookup insert remove adjust_all insert_all
    check_rbf_signaling from_sat_per_kvb ℕ_discrete
pool_has = refl

abbrev entry : MempoolEntry
entry = new_entry payment 1000 5 9

run-no_double_spend_example : payment.compute_txid ≡ payment.compute_txid
unfolding new_entry
run-no_double_spend_example =
    run-no_double_spend default_policy calls 11 11 entry entry coin pool_has pool_has (inl refl)
      (inl refl)

run-new_pool-IsKept_example : IsKept pool
run-new_pool-IsKept_example = run-new_pool-IsKept default_policy calls

run-new_pool-IsForest_example : IsForest pool.entries
run-new_pool-IsForest_example = run-new_pool-IsForest default_policy calls

abbrev added : Mempool
added = (add_tx (new_pool default_policy) payment 1000 5 9).0

adds_payment : add_tx (new_pool default_policy) payment 1000 5 9 ≡ (added, ok 11)
unfolding run step add_tx admit make_room finish_add new_entry new_pool find_conflicts find_parents
    calculate_ancestors place attach maybe_evict kernel_check check_ancestor_limits
    is_fee_acceptable is_size_acceptable lookup insert remove adjust_all insert_all
    check_rbf_signaling from_sat_per_kvb ℕ_discrete
adds_payment = refl

add_tx-eq-ok_example :
    (payment.compute_txid ≡ payment.compute_txid)
    × Admitted
        (new_pool default_policy)
        payment
        entry
        (conflicts_of (new_pool default_policy) payment)
    × ((full : Mempool) × (view full ≡ recorded (new_pool default_policy) payment entry)
        × (added ≡ maybe_evict full))
    × (added.total_size ≤ (new_pool default_policy).policy.max_size)
add_tx-eq-ok_example =
    add_tx-eq-ok (new_pool default_policy) payment 1000 5 9 (new_pool-IsKept default_policy)
      adds_payment

refuses_payment : add_tx pool payment 1000 5 9 ≡ (pool, err already_in_mempool)
unfolding run step add_tx admit make_room finish_add new_entry new_pool find_conflicts find_parents
    calculate_ancestors place attach maybe_evict kernel_check check_ancestor_limits
    is_fee_acceptable is_size_acceptable lookup insert remove adjust_all insert_all
    check_rbf_signaling from_sat_per_kvb ℕ_discrete
refuses_payment = refl

add_tx-eq-err_example :
    (pool ≡ pool)
    ⊎ ((y : PolicyError) × (already_in_mempool ≡ against_policy y)
        × Admitted pool payment (new_entry payment 1000 5 9) (conflicts_of pool payment)
        × (make_room pool (new_entry payment 1000 5 9) (conflicts_of pool payment) ≡ ok pool)
        × TooMany pool (new_entry payment 1000 5 9) y
        × (view pool ≡ drop_outs (conflicts_of pool payment) (view pool)))
add_tx-eq-err_example = add_tx-eq-err pool payment 1000 5 9 refuses_payment

-- The pool under a limit that it exceeds.
abbrev crowded : Mempool
crowded = record pool { policy = record default_policy { max_size = 50 } }

maybe_evict-le_example : (maybe_evict crowded).total_size ≤ 50
maybe_evict-le_example = maybe_evict-le crowded (run-new_pool-IsKept default_policy calls)

abbrev fee_calls : List Fees.Call
fee_calls = enters 30 9 ∷ Fees.sets_height 5 10 ∷ confirms 30 7 ∷ []

run-new_estimator-total_example :
    (s : FeeEstimator) × (Fees.run fee_calls new_estimator ≡ some s)
    × (length s.history ≤ s.max_history)
    × ((r : FeeRate) × (estimate_fee_for_target s 2 ≡ some r)
        × ((r ≡ s.fallback_fee) ⊎ Has r s.buckets))
run-new_estimator-total_example = run-new_estimator-total fee_calls 2

abbrev rival : MempoolEntry
rival = new_entry (record payment { compute_txid = 12 }) 5000 6 10

fees_small : total_fee pool.entries (11 ∷ []) < u64_mod
unfolding run step add_tx admit make_room finish_add new_entry new_pool find_conflicts find_parents
    calculate_ancestors place attach maybe_evict kernel_check check_ancestor_limits
    is_fee_acceptable is_size_acceptable lookup insert remove adjust_all insert_all
    check_rbf_signaling from_sat_per_kvb ℕ_discrete total_fee
fees_small = omega arith

sizes_small : total_vsize pool.entries (11 ∷ []) < 2 ^ 63
unfolding run step add_tx admit make_room finish_add new_entry new_pool find_conflicts find_parents
    calculate_ancestors place attach maybe_evict kernel_check check_ancestor_limits
    is_fee_acceptable is_size_acceptable lookup insert remove adjust_all insert_all
    check_rbf_signaling from_sat_per_kvb ℕ_discrete total_vsize
sizes_small = omega arith

handle_replacement_iff_example :
    (handle_replacement pool rival (11 ∷ []) ≡ ok (drop_each (11 ∷ []) pool))
    ↔ (IsReplacing pool rival (11 ∷ []) × (drop_each (11 ∷ []) pool ≡ drop_each (11 ∷ []) pool))
handle_replacement_iff_example =
    handle_replacement_iff pool rival (11 ∷ []) (drop_each (11 ∷ []) pool) fees_small sizes_small
