-- ===== src/Mempool/History.antt =====
-- Any sequence of calls of the pool's methods (src/mempool/txmempool.rs).
use btck_rust_node.Common.{
  ℕ, ◌≡◌, sym, ◌∙◌, inl, inr, some, List, [], ◌∷◌, lookup, Has, nat_key, some-eq, Result-cases,
}
use btck_rust_node.Common.Words.{add64}
use btck_rust_node.Chain.{Txid, OutPoint, Transaction}
use btck_rust_node.Kernel.{Kernel}
use btck_rust_node.Mempool.Entry.{MempoolEntry}
use btck_rust_node.Mempool.Policy.{MempoolPolicy}
use btck_rust_node.Mempool.Pool.{
  Mempool, prevouts, new_pool, set_kernel, remove_tx, drop_tx, add_tx, remove_counting,
  remove_expired, update_height, clear,
}
use btck_rust_node.Mempool.Ledger.{payload}
use btck_rust_node.Mempool.Books.{
  IsKept, new_pool-IsKept, clear-IsKept, remove_tx-IsKept, view-lookup,
}
use btck_rust_node.Mempool.Admission.{add_tx-IsKept}

-- The calls that change a pool, each with the reading of the clock where it reads it.
pub data Call : Type 0 where
  adds : Transaction → ℕ → ℕ → ℕ → Call
  removes : Txid → Call
  sets_height : ℕ → ℕ → Call
  sets_kernel : Kernel → Call
  clears : Call

unfoldable pub step : Mempool → Call → Mempool
step m (adds tx fee height now) = (add_tx m tx fee height now).0
step m (removes k) = drop_tx m k
step m (sets_height height now) = update_height m height now
step m (sets_kernel kernel) = set_kernel m kernel
step m clears = clear m

unfoldable pub run : List Call → Mempool → Mempool
run [] m = m
run (c ∷ cs) m = run cs (step m c)

remove_counting-IsKept :
    (ks : List Txid) (removed : ℕ) (m : Mempool)
    → IsKept m
    → IsKept (remove_counting ks removed m).0
unfolding remove_counting
remove_counting-IsKept [] removed m c = c
remove_counting-IsKept (k ∷ ks) removed m c = elim (Result-cases (remove_tx m k)) [
  | inl ((m', e), a) ↦
      rw (a, remove_counting)
        (remove_counting-IsKept ks (add64 removed 1) m' (remove_tx-IsKept m k c a))
  | inr (x, a) ↦ rw (a, remove_counting) (remove_counting-IsKept ks removed m c)
]

pub update_height-IsKept :
    (m : Mempool) (height now : ℕ) → IsKept m → IsKept (update_height m height now)
unfolding update_height remove_expired
update_height-IsKept m height now c = remove_counting-IsKept _ 0 _ c

drop_tx-IsKept : (m : Mempool) (k : Txid) → IsKept m → IsKept (drop_tx m k)
unfolding drop_tx
drop_tx-IsKept m k c = elim (Result-cases (remove_tx m k)) [
  | inl ((m', e), a) ↦ rw (a, drop_tx) (remove_tx-IsKept m k c a)
  | inr (x, a) ↦ rw (a, drop_tx) c
]

pub step-IsKept : (m : Mempool) (c : Call) → IsKept m → IsKept (step m c)
unfolding step set_kernel
step-IsKept m (adds tx fee height now) k = add_tx-IsKept m tx fee height now k
step-IsKept m (removes txid) k = drop_tx-IsKept m txid k
step-IsKept m (sets_height height now) k = update_height-IsKept m height now k
step-IsKept m (sets_kernel kernel) k = k
step-IsKept m clears k = clear-IsKept m

run-IsKept : (cs : List Call) (m : Mempool) → IsKept m → IsKept (run cs m)
unfolding run
run-IsKept [] m k = k
run-IsKept (c ∷ cs) m k = run-IsKept cs (step m c) (step-IsKept m c k)

-- After any calls on a new pool the books are in order: an entry stands under its transaction's id,
-- the two counters are the sums over the entries as u64, and the record of spent outpoints holds
-- the inputs of the entries and nothing else.
pub run-new_pool-IsKept :
    (policy : MempoolPolicy) (cs : List Call) → IsKept (run cs (new_pool policy))
run-new_pool-IsKept policy cs = run-IsKept cs (new_pool policy) (new_pool-IsKept policy)

-- After any calls on a new pool, no two entries spend the same outpoint.
pub run-no_double_spend :
    (policy : MempoolPolicy) (cs : List Call) (j k : Txid) (d e : MempoolEntry) (o : OutPoint)
    → lookup j (run cs (new_pool policy)).entries ≡ some d
    → lookup k (run cs (new_pool policy)).entries ≡ some e
    → Has o (prevouts d.tx)
    → Has o (prevouts e.tx)
    → j ≡ k
run-no_double_spend policy cs j k d e o hj hk first second =
    let m = run cs (new_pool policy) in
    let c = run-new_pool-IsKept policy cs in
    some-eq (
      sym (c.spent j (payload d) o (view-lookup m j d hj) first)
      ∙ c.spent k (payload e) o (view-lookup m k e hk) second)
