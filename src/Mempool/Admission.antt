-- ===== src/Mempool/Admission.antt =====
-- `add_tx` of src/mempool/txmempool.rs, branch by branch, and what each method does to the books.
use btck_rust_node.Common.{
  ℕ, ◌≡◌, ◌≤◌, refl, ap, ◌∙◌, inl, inr, ◌⊎◌, true, none, List, [], ◌∷◌, lookup, nat_key, arith, ok,
  Result-cases, Bool-cases, values, leb, HashSet, keys,
}
use btck_rust_node.Common.Words.{sub64, add64}
use btck_rust_node.Chain.{Txid, outpoint_key, Transaction}
use btck_rust_node.Mempool.Entry.{MempoolEntry, new_entry}
use btck_rust_node.Mempool.Policy.{is_size_acceptable, is_fee_acceptable, check_ancestor_limits}
use btck_rust_node.Mempool.Pool.{
  Mempool, prevouts, remove_tx, drop_each, find_conflicts, find_parents, Ancestors,
  calculate_ancestors, handle_replacement, kernel_check, admit, place, evict_loop, maybe_evict,
  sort_by, by_fee_rate, make_room, finish_add, add_tx,
}
use btck_rust_node.Mempool.Ledger.{view, payload, view-attach}
use btck_rust_node.Mempool.Ledger.Consistent.{Unspent, put_in-IsConsistent}
use btck_rust_node.Mempool.Books.{
  IsKept, remove_tx-IsKept, drop_each-IsKept, drop_each-Unspent, drop_each_absent,
}

-- What `add_tx` has checked before it changes the pool.
pub record Admitted (m : Mempool) (tx : Transaction) (entry : MempoolEntry) (ks : List Txid)
    : Type 0 where
  pub conflicts : ks ≡ find_conflicts m.spends (prevouts tx)
  pub is_new : lookup tx.compute_txid m.entries ≡ none
  pub valid : kernel_check m.kernel tx ≡ ok tt
  pub fits : tx.vsize ≤ m.policy.max_tx_size
  pub pays : m.policy.min_relay_fee ≤ entry.fee_rate
  pub signals : (ks ≡ []) ⊎ (entry.signals_replacement ≡ true)

pub admit-Admitted :
    (m : Mempool) (tx : Transaction) (entry : MempoolEntry) {ks : List Txid}
    → admit m tx entry ≡ ok ks
    → Admitted m tx entry ks
unfolding admit is_size_acceptable is_fee_acceptable
admit-Admitted m tx entry h = ground arith

pub make_room-eq-ok :
    (m : Mempool) (entry : MempoolEntry) (ks : List Txid) {m' : Mempool}
    → make_room m entry ks ≡ ok m'
    → m' ≡ drop_each ks m
unfolding make_room handle_replacement drop_each
make_room-eq-ok m entry [] h = ground arith
make_room-eq-ok m entry (k ∷ ks) h = ground arith

evict_loop-IsKept :
    (current evicted : ℕ) (es : List MempoolEntry) (m : Mempool)
    → IsKept m
    → IsKept (evict_loop current evicted es m)
unfolding evict_loop
evict_loop-IsKept current evicted [] m c = c
evict_loop-IsKept current evicted (e ∷ es) m c =
    elim (Bool-cases (leb (sub64 current evicted) m.policy.max_size)) [
      | inl enough ↦ rw (enough, evict_loop) c
      | inr more ↦ elim (Result-cases (remove_tx m e.txid)) [
        | inl ((m', x), a) ↦
            rw (more, evict_loop, a)
              (evict_loop-IsKept current (add64 evicted e.vsize) es m'
                (remove_tx-IsKept m e.txid c a))
        | inr (x, a) ↦ rw (more, evict_loop, a) (evict_loop-IsKept current evicted es m c)
      ]
    ]

pub maybe_evict-IsKept : (m : Mempool) → IsKept m → IsKept (maybe_evict m)
unfolding maybe_evict
maybe_evict-IsKept m c = elim (Bool-cases (leb m.total_size m.policy.max_size)) [
  | inl enough ↦ rw enough c
  | inr more ↦
      rw more (evict_loop-IsKept m.total_size 0 (sort_by by_fee_rate (values m.entries)) m c)
]

finish_add-IsKept :
    (m : Mempool) (entry : MempoolEntry) (now : ℕ)
    → IsKept m
    → entry.tx.compute_txid ≡ entry.txid
    → lookup entry.txid (view m).txs ≡ none
    → Unspent (view m) entry.tx
    → IsKept (finish_add m entry now).0
unfolding finish_add place
finish_add-IsKept m entry now c name new free =
    elim (Result-cases
      (check_ancestor_limits m.policy (add64 a.count 1) (add64 a.size entry.vsize))) [
        | inl (u, e) ↦
            rw (e, finish_add)
              (maybe_evict-IsKept _ (
                rw (view-attach m placed now)
                  (put_in-IsConsistent (view m) c (payload placed) name' new' free')))
        | inr (x, e) ↦ rw (e, finish_add) c
      ]
  where
    parents : HashSet Txid
    parents = find_parents m.entries [] (prevouts entry.tx)

    a : Ancestors
    a = calculate_ancestors m.entries (keys parents) (record { count = 0; size = 0; fees = 0 })

    placed : MempoolEntry
    placed = place entry parents a

    name' : placed.tx.compute_txid ≡ placed.txid
    name' = name

    new' : lookup placed.txid (view m).txs ≡ none
    new' = new

    free' : Unspent (view m) placed.tx
    free' = free

-- `add_tx` keeps the books in order, whether it succeeds or fails.
pub add_tx-IsKept :
    (m : Mempool) (tx : Transaction) (fee height now : ℕ)
    → IsKept m
    → IsKept (add_tx m tx fee height now).0
unfolding add_tx new_entry
add_tx-IsKept m tx fee height now c = elim (Result-cases (admit m tx entry)) [
  | inr (x, e) ↦ rw (e, add_tx) c
  | inl (ks, e) ↦ elim (Result-cases (make_room m entry ks)) [
    | inr (x, f) ↦ rw (e, add_tx, f) c
    | inl (m', f) ↦
        let ad = admit-Admitted m tx entry e in
        let same : m' ≡ drop_each (find_conflicts m.spends (prevouts tx)) m =
          make_room-eq-ok m entry ks f ∙ ap (λ js. drop_each js m) ad.conflicts in
        rw (e, add_tx, f, same)
          (finish_add-IsKept _ entry now (drop_each-IsKept _ m c) name
            (drop_each_absent _ m tx.compute_txid ad.is_new) (drop_each-Unspent m tx c))
  ]
]
  where
    entry : MempoolEntry
    entry = new_entry tx fee height now

    name : entry.tx.compute_txid ≡ entry.txid
    name = refl
