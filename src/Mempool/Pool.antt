-- ===== src/Mempool/Pool.antt =====
-- src/mempool/txmempool.rs: the pool's state, and what each method does to it. A method that fails
-- after it has changed the pool returns the changed pool beside the error. The locks are gone: a
-- method runs as one step. `now` is the reading of the system clock during a call.
use btck_rust_node.Common.{
  ℕ, ◌-◌, Bool, true, false, not, ◌||◌, Option, none, some, List, [], ◌∷◌, map, length, leb,
  if◌then◌else◌, Result, ok, err, ◌>>=◌, ◌>>◌, ensure, map_err, HashSet, contains_key, add, lookup,
  insert, remove, adjust_all, remove_all, insert_all, keys, values, nat_key,
}
use btck_rust_node.Common.Int.{ℤ, pos, negsuc}
use btck_rust_node.Common.Words.{add64, sub64, as_i64, add_i64, sub_i64, neg_i64}
use btck_rust_node.Chain.{Txid, OutPoint, outpoint_key, Transaction}
use btck_rust_node.Kernel.{
  Kernel, Reason, KernelError, Verdict, validate_transaction, check_tx_inputs, is_empty,
}
use btck_rust_node.Mempool.Entry.{
  MempoolEntry, new_entry, is_expired, update_ancestor_state, update_descendant_state,
}
use btck_rust_node.Mempool.Policy.{
  MempoolPolicy, PolicyError, is_size_acceptable, is_fee_acceptable, check_ancestor_limits,
  check_rbf,
}
use btck_rust_node.Mempool.Fees.{FeeEstimator, new_estimator, add_rate}
use btck_rust_node.Mempool.Fees

pub record Mempool : Type 0 where
  pub entries : List (Txid × MempoolEntry)
  pub policy : MempoolPolicy
  pub fee_estimator : FeeEstimator
  pub total_size : ℕ
  pub total_fees : ℕ
  pub current_height : ℕ
  pub spends : List (OutPoint × Txid)
  pub kernel : Option Kernel

pub data PoolError : Type 0 where
  already_in_mempool : PoolError
  transaction_invalid : Option Reason → PoolError
  validation_error : KernelError → PoolError
  missing_inputs : ℕ → PoolError
  input_check_error : KernelError → PoolError
  too_large : PoolError
  fee_rate_too_low : ℕ → ℕ → PoolError
  conflicts_with_pool : PoolError
  conflict_not_replaceable : PoolError
  against_policy : PolicyError → PoolError
  not_in_mempool : PoolError

unfoldable pub new_pool : MempoolPolicy → Mempool
new_pool policy = record {
  entries = [];
  policy = policy;
  fee_estimator = new_estimator;
  total_size = 0;
  total_fees = 0;
  current_height = 0;
  spends = [];
  kernel = none;
}

unfoldable pub set_kernel : Mempool → Kernel → Mempool
set_kernel m kernel = record m { kernel = some kernel }

unfoldable pub with_kernel : MempoolPolicy → Kernel → Mempool
with_kernel policy kernel = record (new_pool policy) { kernel = some kernel }

abbrev pub prevouts : Transaction → List OutPoint
prevouts tx = map (λ i. i.previous_output) tx.input

-- Removal ---------------------------------------------------------------------------------------

-- What `remove_tx` does to each parent, and to each child, of the removed entry.
unfoldable pub forget_child : Txid → MempoolEntry → MempoolEntry → MempoolEntry
forget_child txid e parent =
    update_descendant_state (record parent { children = remove txid parent.children })
      (neg_i64 (as_i64 e.vsize)) (neg_i64 (as_i64 e.fee)) (negsuc 0)

unfoldable pub forget_parent : Txid → MempoolEntry → MempoolEntry → MempoolEntry
forget_parent txid e child =
    update_ancestor_state (record child { parents = remove txid child.parents })
      (neg_i64 (as_i64 e.vsize)) (neg_i64 (as_i64 e.fee)) (negsuc 0)

-- The pool without the entry at a key.
unfoldable pub detach : Mempool → Txid → MempoolEntry → Mempool
detach m txid e = record m {
  entries =
      adjust_all (keys e.children) (forget_parent txid e)
        (adjust_all (keys e.parents) (forget_child txid e) (remove txid m.entries));
  spends = remove_all (prevouts e.tx) m.spends;
  total_size = sub64 m.total_size e.vsize;
  total_fees = sub64 m.total_fees e.fee;
}

unfoldable pub remove_tx : Mempool → Txid → Result PoolError (Mempool × MempoolEntry)
remove_tx m txid = elim (lookup txid m.entries) [
  | none ↦ err not_in_mempool
  | some e ↦ ok (detach m txid e, e)
]

-- `let _ = self.remove_tx(..)`
unfoldable pub drop_tx : Mempool → Txid → Mempool
drop_tx m txid = elim (remove_tx m txid) [ ok (m', _) ↦ m' | err _ ↦ m ]

unfoldable pub drop_each : List Txid → Mempool → Mempool
drop_each [] m = m
drop_each (k ∷ ks) m = drop_each ks (drop_tx m k)

-- Admission -------------------------------------------------------------------------------------

unfoldable pub find_conflicts : List (OutPoint × Txid) → List OutPoint → List Txid
find_conflicts spends [] = []
find_conflicts spends (o ∷ os) =
    let rest = find_conflicts spends os in
    elim (lookup o spends) [ none ↦ rest | some k ↦ k ∷ rest ]

unfoldable pub find_parents :
    List (Txid × MempoolEntry) → HashSet Txid → List OutPoint → HashSet Txid
find_parents entries parents [] = parents
find_parents entries parents (o ∷ os) =
    find_parents entries (if contains_key o.txid entries then add o.txid parents else parents) os

pub record Ancestors : Type 0 where
  pub count : ℕ
  pub size : ℕ
  pub fees : ℕ

unfoldable pub calculate_ancestors : List (Txid × MempoolEntry) → List Txid → Ancestors → Ancestors
calculate_ancestors entries [] a = a
calculate_ancestors entries (k ∷ ks) a = calculate_ancestors entries ks (elim (lookup k entries) [
  | none ↦ a
  | some p ↦ record {
    count = add64 a.count p.ancestor_count;
    size = add64 a.size p.ancestor_size;
    fees = add64 a.fees p.ancestor_fees;
  }
])

-- The fees and the size of the conflicts; the early return if one does not signal replacement.
unfoldable pub sum_conflicts :
    List (Txid × MempoolEntry) → List Txid → ℕ → ℤ → Result PoolError (ℕ × ℤ)
sum_conflicts entries [] fees size = ok (fees, size)
sum_conflicts entries (k ∷ ks) fees size = elim (lookup k entries) [
  | none ↦ sum_conflicts entries ks fees size
  | some c ↦ elim c.signals_replacement [
    | true ↦ sum_conflicts entries ks (add64 fees c.fee) (add_i64 size (as_i64 c.vsize))
    | false ↦ err conflict_not_replaceable
  ]
]

unfoldable pub handle_replacement : Mempool → MempoolEntry → List Txid → Result PoolError Mempool
handle_replacement m new conflicts = do
  (fees, size) ← sum_conflicts m.entries conflicts 0 (pos 0)
  map_err against_policy (
      check_rbf m.policy new.signals_replacement (new.fee - fees) (sub_i64 (as_i64 new.vsize) size))
  ok (drop_each conflicts m)

abbrev kernel_verdict : Verdict → Result PoolError (Unit {0})
kernel_verdict (ok (true, _)) = ok tt
kernel_verdict (ok (false, reason)) = err (transaction_invalid reason)
kernel_verdict (err e) = err (validation_error e)

abbrev inputs_verdict : Result KernelError (Bool × ℕ) → Result PoolError (Unit {0})
inputs_verdict (ok (true, _)) = ok tt
inputs_verdict (ok (false, missing)) = err (missing_inputs missing)
inputs_verdict (err e) = err (input_check_error e)

unfoldable pub kernel_check : Option Kernel → Transaction → Result PoolError (Unit {0})
kernel_check none tx = ok tt
kernel_check (some kernel) tx = do
  kernel_verdict (validate_transaction tx)
  inputs_verdict (check_tx_inputs tx)

-- The part of `add_tx` before the pool changes: its conflicts, or the error.
unfoldable pub admit : Mempool → Transaction → MempoolEntry → Result PoolError (List Txid)
admit m tx entry = do
  ensure (not (contains_key tx.compute_txid m.entries)) already_in_mempool
  kernel_check m.kernel tx
  ensure (is_size_acceptable m.policy tx.vsize) too_large
  ensure (is_fee_acceptable m.policy entry.fee_rate)
      (fee_rate_too_low entry.fee_rate m.policy.min_relay_fee)
  let conflicts = find_conflicts m.spends (prevouts tx)
  ensure (is_empty conflicts || entry.signals_replacement) conflicts_with_pool
  ok conflicts

-- What `add_tx` does to each parent of the new entry.
unfoldable pub adopt : MempoolEntry → MempoolEntry → MempoolEntry
adopt e parent =
    update_descendant_state (record parent { children = add e.txid parent.children })
      (as_i64 e.vsize) (as_i64 e.fee) (pos 1)

-- The entry with its place among its ancestors.
unfoldable pub place : MempoolEntry → HashSet Txid → Ancestors → MempoolEntry
place e parents a = record e {
  parents = parents;
  ancestor_count = add64 a.count 1;
  ancestor_size = add64 a.size e.vsize;
  ancestor_fees = add64 a.fees e.fee;
}

-- The pool with the new entry linked in.
unfoldable pub attach : Mempool → MempoolEntry → ℕ → Mempool
attach m e now = record m {
  spends = insert_all (prevouts e.tx) e.txid m.spends;
  entries = insert e.txid e (adjust_all (keys e.parents) (adopt e) m.entries);
  total_size = add64 m.total_size e.vsize;
  total_fees = add64 m.total_fees e.fee;
  fee_estimator = add_rate m.fee_estimator e.fee_rate now;
}

-- Eviction --------------------------------------------------------------------------------------

-- The stable sort of the standard library, by a test for "not after".
module _ {A : Type 0} (before : A → A → Bool) where
  unfoldable pub insert_sorted : A → List A → List A
  insert_sorted x [] = x ∷ []
  insert_sorted x (y ∷ ys) = if before x y then x ∷ y ∷ ys else y ∷ insert_sorted x ys

  unfoldable pub sort_by : List A → List A
  unfolding insert_sorted
  sort_by [] = []
  sort_by (x ∷ xs) = insert_sorted x (sort_by xs)

abbrev pub by_fee_rate : MempoolEntry → MempoolEntry → Bool
by_fee_rate a b = leb a.fee_rate b.fee_rate

-- The loop of `maybe_evict`; `current` is the size at its start.
unfoldable pub evict_loop : ℕ → ℕ → List MempoolEntry → Mempool → Mempool
evict_loop current evicted [] m = m
evict_loop current evicted (e ∷ es) m = elim (leb (sub64 current evicted) m.policy.max_size) [
  | true ↦ m
  | false ↦ elim (remove_tx m e.txid) [
    | ok (m', _) ↦ evict_loop current (add64 evicted e.vsize) es m'
    | err _ ↦ evict_loop current evicted es m
  ]
]

unfoldable pub maybe_evict : Mempool → Mempool
maybe_evict m =
    if leb m.total_size m.policy.max_size
    then m
    else evict_loop m.total_size 0 (sort_by by_fee_rate (values m.entries)) m

-- Adding ----------------------------------------------------------------------------------------

-- The pool once the conflicts are out of the way.
unfoldable pub make_room : Mempool → MempoolEntry → List Txid → Result PoolError Mempool
make_room m entry [] = ok m
make_room m entry (k ∷ ks) = handle_replacement m entry (k ∷ ks)

-- The part of `add_tx` behind the replacement.
unfoldable pub finish_add : Mempool → MempoolEntry → ℕ → Mempool × Result PoolError Txid
finish_add m entry now =
    let parents = find_parents m.entries [] (prevouts entry.tx) in
    let a =
      calculate_ancestors m.entries (keys parents) (record { count = 0; size = 0; fees = 0 }) in
    elim (check_ancestor_limits m.policy (add64 a.count 1) (add64 a.size entry.vsize)) [
      | err e ↦ (m, err (against_policy e))
      | ok _ ↦ (maybe_evict (attach m (place entry parents a) now), ok entry.txid)
    ]

unfoldable pub add_tx : Mempool → Transaction → ℕ → ℕ → ℕ → Mempool × Result PoolError Txid
add_tx m tx fee height now =
    let entry = new_entry tx fee height now in
    elim (admit m tx entry >>= make_room m entry) [
      | err e ↦ (m, err e)
      | ok m' ↦ finish_add m' entry now
    ]

-- Expiry and the rest ---------------------------------------------------------------------------

unfoldable pub expired_ids : ℕ → ℕ → List MempoolEntry → List Txid
expired_ids now expiry [] = []
expired_ids now expiry (e ∷ es) =
    let rest = expired_ids now expiry es in if is_expired e now expiry then e.txid ∷ rest else rest

-- The pool and the number of entries removed.
unfoldable pub remove_counting : List Txid → ℕ → Mempool → Mempool × ℕ
remove_counting [] removed m = (m, removed)
remove_counting (k ∷ ks) removed m = elim (remove_tx m k) [
  | ok (m', _) ↦ remove_counting ks (add64 removed 1) m'
  | err _ ↦ remove_counting ks removed m
]

unfoldable pub remove_expired : Mempool → ℕ → Mempool × ℕ
remove_expired m now = remove_counting (expired_ids now m.policy.expiry (values m.entries)) 0 m

unfoldable pub update_height : Mempool → ℕ → ℕ → Mempool
update_height m height now =
    (remove_expired
      (record m {
        current_height = height;
        fee_estimator = Fees.update_height m.fee_estimator height now;
      })
      now).0

unfoldable pub get_tx : Mempool → Txid → Option Transaction
get_tx m txid = elim (lookup txid m.entries) [ none ↦ none | some e ↦ some e.tx ]

unfoldable pub contains_tx : Mempool → Txid → Bool
contains_tx m txid = contains_key txid m.entries

unfoldable pub size : Mempool → ℕ
size m = length m.entries

unfoldable pub get_all_txids : Mempool → List Txid
get_all_txids m = keys m.entries

unfoldable pub clear : Mempool → Mempool
clear m = record m { entries = []; spends = []; total_size = 0; total_fees = 0 }
