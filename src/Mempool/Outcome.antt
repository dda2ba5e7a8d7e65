-- ===== src/Mempool/Outcome.antt =====
-- What `add_tx` of src/mempool/txmempool.rs leaves behind, on success and on failure.
use btck_rust_node.Common.{
  ℕ, ◌≡◌, ◌≤◌, refl, sym, ap, ◌∙◌, subst, inl, inr, ◌⊎◌, none, List, [], ◌∷◌, lookup, nat_key,
  Result, ok, err, Result-cases, keys,
}
use btck_rust_node.Common.Words.{add64}
use btck_rust_node.Chain.{Txid, Transaction}
use btck_rust_node.Mempool.Entry.{MempoolEntry, new_entry}
use btck_rust_node.Mempool.Policy.{PolicyError, check_ancestor_limits}
use btck_rust_node.Mempool.Pool.{
  Mempool, PoolError, against_policy, prevouts, drop_tx, drop_each, find_conflicts, find_parents,
  Ancestors, calculate_ancestors, admit, place, attach, maybe_evict, make_room, finish_add, add_tx,
  remove_tx,
}
use btck_rust_node.Mempool.Ledger.{
  Ledger, payload, view, put_in, drop_outs, view-attach, view-drop_each,
}
use btck_rust_node.Mempool.Ledger.Consistent.{put_in-IsConsistent, IsConsistent}
use btck_rust_node.Mempool.Books.{
  IsKept, drop_each-IsKept, drop_each-Unspent, drop_each_absent, policy-detach, remove_tx-eq-ok,
}
use btck_rust_node.Mempool.Admission.{Admitted, admit-Admitted, make_room-eq-ok}
use btck_rust_node.Mempool.Eviction.{maybe_evict-le}

abbrev pub conflicts_of : Mempool → Transaction → List Txid
conflicts_of m tx = find_conflicts m.spends (prevouts tx)

-- The books once the transaction is in: its conflicts are out, and it is recorded.
abbrev pub recorded : Mempool → Transaction → MempoolEntry → Ledger
recorded m tx entry = put_in (drop_outs (conflicts_of m tx) (view m)) (payload entry)

policy-drop_tx : (m : Mempool) (k : Txid) → (drop_tx m k).policy ≡ m.policy
unfolding drop_tx
policy-drop_tx m k = elim (Result-cases (remove_tx m k)) [
  | inl ((m', e), a) ↦
      rw (a, drop_tx) (ap (λ t. t.policy) (remove_tx-eq-ok m k a).1 ∙ policy-detach m k e)
  | inr (x, a) ↦ rw (a, drop_tx)
]

policy-drop_each : (ks : List Txid) (m : Mempool) → (drop_each ks m).policy ≡ m.policy
unfolding drop_each
policy-drop_each [] m = refl
policy-drop_each (k ∷ ks) m = policy-drop_each ks (drop_tx m k) ∙ policy-drop_tx m k

policy-attach : (m : Mempool) (e : MempoolEntry) (now : ℕ) → (attach m e now).policy ≡ m.policy
unfolding attach
policy-attach m e now = refl

-- The ancestors of a transaction, as the code counts them.
abbrev pub ancestors_of : Mempool → Transaction → Ancestors
ancestors_of m tx =
    calculate_ancestors m.entries (keys (find_parents m.entries [] (prevouts tx)))
      (record { count = 0; size = 0; fees = 0 })

-- The ancestors of the entry in the pool, with itself, are too many or too large.
abbrev pub TooMany : Mempool → MempoolEntry → PolicyError → Type 0
TooMany m entry x =
    let a = ancestors_of m entry.tx in
    check_ancestor_limits m.policy (add64 a.count 1) (add64 a.size entry.vsize) ≡ err x

-- The two ways out of `finish_add`.
finish_add-cases :
    (m : Mempool) (entry : MempoolEntry) (now : ℕ)
    → ((x : PolicyError) × TooMany m entry x
        × (finish_add m entry now ≡ (m, err (against_policy x))))
      ⊎ ((e : MempoolEntry) × (payload e ≡ payload entry)
          × (finish_add m entry now ≡ (maybe_evict (attach m e now), ok entry.txid)))
unfolding finish_add place
finish_add-cases m entry now =
    let parents = find_parents m.entries [] (prevouts entry.tx) in
    let a = ancestors_of m entry.tx in
    elim (Result-cases
      (check_ancestor_limits m.policy (add64 a.count 1) (add64 a.size entry.vsize))) [
        | inl (u, e) ↦ inr (place entry parents a, refl, rw (e, finish_add))
        | inr (x, e) ↦ inl (x, e, rw (e, finish_add))
      ]

-- The three ways out of `add_tx`.
data Outcome (m : Mempool) (tx : Transaction) (entry : MempoolEntry) (now : ℕ)
    (r : Mempool × Result PoolError Txid) : Type 0 where
  refused : (x : PoolError) → r ≡ (m, err x) → Outcome m tx entry now r
  limited :
      (x : PolicyError)
      → Admitted m tx entry (conflicts_of m tx)
      → make_room m entry (conflicts_of m tx) ≡ ok (drop_each (conflicts_of m tx) m)
      → TooMany (drop_each (conflicts_of m tx) m) entry x
      → r ≡ (drop_each (conflicts_of m tx) m, err (against_policy x))
      → Outcome m tx entry now r
  accepted :
      (e : MempoolEntry)
      → Admitted m tx entry (conflicts_of m tx)
      → payload e ≡ payload entry
      → r ≡ (maybe_evict (attach (drop_each (conflicts_of m tx) m) e now), ok tx.compute_txid)
      → Outcome m tx entry now r

add_tx-Outcome :
    (m : Mempool) (tx : Transaction) (fee height now : ℕ)
    → Outcome m tx (new_entry tx fee height now) now (add_tx m tx fee height now)
unfolding add_tx new_entry
add_tx-Outcome m tx fee height now = elim (Result-cases (admit m tx entry)) [
  | inr (x, e) ↦ refused x (rw (e, add_tx))
  | inl (ks, e) ↦ elim (Result-cases (make_room m entry ks)) [
    | inr (x, f) ↦ refused x (rw (e, add_tx, f))
    | inl (m', f) ↦
        let ad = admit-Admitted m tx entry e in
        let same : m' ≡ drop_each (conflicts_of m tx) m =
          make_room-eq-ok m entry ks f ∙ ap (λ js. drop_each js m) ad.conflicts in
        let there = subst (λ js. Admitted m tx entry js) ad.conflicts ad in
        let room : make_room m entry (conflicts_of m tx) ≡ ok (drop_each (conflicts_of m tx) m) =
          sym (ap (make_room m entry) ad.conflicts) ∙ f ∙ ap ok same in
        elim (finish_add-cases (drop_each (conflicts_of m tx) m) entry now) [
          | inl (x, over, g) ↦ limited x there room over (rw (e, add_tx, f, same) g)
          | inr (placed, p, g) ↦ accepted placed there p (rw (e, add_tx, f, same) g)
        ]
  ]
]
  where
    entry : MempoolEntry
    entry = new_entry tx fee height now

attach-IsKept :
    (m : Mempool) (tx : Transaction) (fee height now : ℕ) (e : MempoolEntry)
    → IsKept m
    → lookup tx.compute_txid m.entries ≡ none
    → payload e ≡ payload (new_entry tx fee height now)
    → IsKept (attach (drop_each (conflicts_of m tx) m) e now)
      × (view (attach (drop_each (conflicts_of m tx) m) e now)
          ≡ recorded m tx (new_entry tx fee height now))
unfolding new_entry
attach-IsKept m tx fee height now e c new same =
    let m' = drop_each (conflicts_of m tx) m in
    let entry = new_entry tx fee height now in
    let seen : view (attach m' e now) ≡ put_in (view m') (payload entry) =
      view-attach m' e now ∙ ap (put_in (view m')) same in
    let kept : IsConsistent (put_in (view m') (payload entry)) =
      put_in-IsConsistent (view m') (drop_each-IsKept _ m c) (payload entry) refl
        (drop_each_absent _ m tx.compute_txid new) (drop_each-Unspent m tx c) in
    (
      subst IsConsistent (sym seen) kept,
      seen ∙ ap (λ l. put_in l (payload entry)) (view-drop_each (conflicts_of m tx) m),
    )

-- A successful `add_tx` was for a new transaction that the kernel accepts, within the size limit,
-- that pays the minimum relay fee and signals replacement if it has conflicts. The call takes the
-- conflicts out, records the transaction, evicts from that, and leaves a pool within its size limit.
pub add_tx-eq-ok :
    (m : Mempool) (tx : Transaction) (fee height now : ℕ) {m' : Mempool} {k : Txid}
    → IsKept m
    → add_tx m tx fee height now ≡ (m', ok k)
    → (k ≡ tx.compute_txid)
      × Admitted m tx (new_entry tx fee height now) (conflicts_of m tx)
      × ((full : Mempool) × (view full ≡ recorded m tx (new_entry tx fee height now))
          × (m' ≡ maybe_evict full))
      × (m'.total_size ≤ m.policy.max_size)
add_tx-eq-ok m tx fee height now {m'} c h = elim (add_tx-Outcome m tx fee height now) [
  | refused x r ↦ absurd (cc (r, h))
  | limited x ad room over r ↦ absurd (cc (r, h))
  | accepted e ad same r ↦
      let (kept, seen) = attach-IsKept m tx fee height now e c ad.is_new same in
      let there : m' ≡ maybe_evict (attach (drop_each (conflicts_of m tx) m) e now) = cc (r, h) in
      let limit : (attach (drop_each (conflicts_of m tx) m) e now).policy.max_size
          ≡ m.policy.max_size =
        ap (λ p. p.max_size) (policy-attach _ e now ∙ policy-drop_each (conflicts_of m tx) m) in
      (
        cc (r, h),
        ad,
        (attach (drop_each (conflicts_of m tx) m) e now, seen, there),
        subst (λ t. t.total_size ≤ m.policy.max_size) (sym there)
            (subst
              (λ t. (maybe_evict (attach (drop_each (conflicts_of m tx) m) e now)).total_size ≤ t)
              limit (maybe_evict-le (attach (drop_each (conflicts_of m tx) m) e now) kept)),
      )
]

-- A failing `add_tx` leaves the pool as it was, unless the transaction has passed all checks and the
-- replacement of its conflicts, and is then refused by the ancestor limits, with their error: then
-- the transactions in conflict with it are gone all the same.
pub add_tx-eq-err :
    (m : Mempool) (tx : Transaction) (fee height now : ℕ) {m' : Mempool} {x : PoolError}
    → add_tx m tx fee height now ≡ (m', err x)
    → (m' ≡ m)
      ⊎ ((y : PolicyError) × (x ≡ against_policy y)
          × Admitted m tx (new_entry tx fee height now) (conflicts_of m tx)
          × (make_room m (new_entry tx fee height now) (conflicts_of m tx) ≡ ok m')
          × TooMany m' (new_entry tx fee height now) y
          × (view m' ≡ drop_outs (conflicts_of m tx) (view m)))
add_tx-eq-err m tx fee height now {m'} h = elim (add_tx-Outcome m tx fee height now) [
  | refused y r ↦ inl (cc (r, h))
  | limited y ad room over r ↦
      let there : m' ≡ drop_each (conflicts_of m tx) m = cc (r, h) in
      let entry = new_entry tx fee height now in
      inr (
        y,
        cc (r, h),
        ad,
        room ∙ ap ok (sym there),
        subst (λ t. TooMany t entry y) (sym there) over,
        ap view there ∙ view-drop_each (conflicts_of m tx) m,
      )
  | accepted e ad same r ↦ absurd (cc (r, h))
]
