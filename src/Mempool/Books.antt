-- ===== src/Mempool/Books.antt =====
-- The methods of src/mempool/txmempool.rs keep the pool's books in order: the counters, the names
-- and the record of spent outpoints (Mempool/Ledger/Consistent.antt).
use btck_rust_node.Common.{
  ◌≡◌, refl, sym, ap, ◌∙◌, subst, inl, inr, none, some, List, [], ◌∷◌, lookup, Has, nat_key,
  Option-cases, none-some, arith, ok, err, map_values, lookup-map_values,
}
use btck_rust_node.Chain.{Txid, OutPoint, outpoint_key, Transaction}
use btck_rust_node.Mempool.Entry.{MempoolEntry}
use btck_rust_node.Mempool.Policy.{MempoolPolicy}
use btck_rust_node.Mempool.Pool.{
  Mempool, PoolError, prevouts, new_pool, detach, remove_tx, drop_each, find_conflicts, clear,
}
use btck_rust_node.Mempool.Ledger.{
  Ledger, Payload, payload, view, drop_outs, view-detach, view-drop_each,
}
use btck_rust_node.Mempool.Ledger.Consistent.{
  IsConsistent, Unspent, take_out-IsConsistent, drop_outs-IsConsistent, lookup-drop_outs,
}

-- The books of a pool are in order.
abbrev pub IsKept : Mempool → Type 0
IsKept m = IsConsistent (view m)

pub new_pool-IsKept : (policy : MempoolPolicy) → IsKept (new_pool policy)
unfolding new_pool map_values lookup
new_pool-IsKept policy = record {
  distinct = tt;
  named = λ k p h. absurd (none-some refl h);
  sizes = omega arith;
  fees = omega arith;
  spent = λ k p o h. absurd (none-some refl h);
  backed = λ k o h. absurd (none-some refl h);
}

pub clear-IsKept : (m : Mempool) → IsKept (clear m)
unfolding clear map_values lookup
clear-IsKept m = record {
  distinct = tt;
  named = λ k p h. absurd (none-some refl h);
  sizes = omega arith;
  fees = omega arith;
  spent = λ k p o h. absurd (none-some refl h);
  backed = λ k o h. absurd (none-some refl h);
}

pub view-lookup :
    (m : Mempool) (k : Txid) (e : MempoolEntry)
    → lookup k m.entries ≡ some e
    → lookup k (view m).txs ≡ some (payload e)
view-lookup m k e h = ground (arith, lookup-map_values payload k m.entries)

pub view-lookup_inv :
    (m : Mempool) (k : Txid) (p : Payload)
    → lookup k (view m).txs ≡ some p
    → (e : MempoolEntry) × (lookup k m.entries ≡ some e) × (payload e ≡ p)
view-lookup_inv m k p h = elim (Option-cases (lookup k m.entries)) [
  | inl a ↦ absurd (ground (arith, lookup-map_values payload k m.entries))
  | inr (e, a) ↦ (e, a, ground (arith, lookup-map_values payload k m.entries))
]

pub remove_tx-eq-ok :
    (m : Mempool) (k : Txid) {m' : Mempool} {e : MempoolEntry}
    → remove_tx m k ≡ ok (m', e)
    → (lookup k m.entries ≡ some e) × (m' ≡ detach m k e)
unfolding remove_tx
remove_tx-eq-ok m k h = elim (Option-cases (lookup k m.entries)) [
  | inl a ↦ absurd (ground arith)
  | inr (e, a) ↦ ground arith
]

pub remove_tx-eq-err :
    (m : Mempool) (k : Txid) {x : PoolError} → remove_tx m k ≡ err x → lookup k m.entries ≡ none
unfolding remove_tx
remove_tx-eq-err m k h = elim (Option-cases (lookup k m.entries)) [
  | inl a ↦ a
  | inr (e, a) ↦ absurd (ground arith)
]

pub view-lookup-none :
    (m : Mempool) (k : Txid) → lookup k m.entries ≡ none → lookup k (view m).txs ≡ none
view-lookup-none m k h = ground (arith, lookup-map_values payload k m.entries)

pub policy-detach : (m : Mempool) (k : Txid) (e : MempoolEntry) → (detach m k e).policy ≡ m.policy
unfolding detach
policy-detach m k e = refl

pub detach-IsKept :
    (m : Mempool) (k : Txid) (e : MempoolEntry)
    → IsKept m
    → lookup k m.entries ≡ some e
    → IsKept (detach m k e)
detach-IsKept m k e c h =
    rw (view-detach m k e) (take_out-IsConsistent (view m) c k (payload e) (view-lookup m k e h))

pub remove_tx-IsKept :
    (m : Mempool) (k : Txid) {m' : Mempool} {e : MempoolEntry}
    → IsKept m
    → remove_tx m k ≡ ok (m', e)
    → IsKept m'
remove_tx-IsKept m k {m'} {e} c h =
    let (there, same) = remove_tx-eq-ok m k h in
    subst IsKept (sym same) (detach-IsKept m k e c there)

pub drop_each-IsKept : (ks : List Txid) (m : Mempool) → IsKept m → IsKept (drop_each ks m)
drop_each-IsKept ks m c = rw (view-drop_each ks m) (drop_outs-IsConsistent ks (view m) c)

-- Every recorded spender of an input is among the conflicts.
Has-find_conflicts :
    (spends : List (OutPoint × Txid)) (os : List OutPoint) (o : OutPoint) (k : Txid)
    → Has o os
    → lookup o spends ≡ some k
    → Has k (find_conflicts spends os)
unfolding find_conflicts
Has-find_conflicts spends [] o k h e = elim h [ ]
Has-find_conflicts spends (o' ∷ os) o k (inl same) e =
    let e' : lookup o' spends ≡ some k = ap (λ t. lookup t spends) same ∙ e in
    rw (e', find_conflicts) (inl refl)
Has-find_conflicts spends (o' ∷ os) o k (inr later) e = elim (Option-cases (lookup o' spends)) [
  | inl a ↦ rw (a, find_conflicts) (Has-find_conflicts spends os o k later e)
  | inr (j, a) ↦ rw (a, find_conflicts) (inr (Has-find_conflicts spends os o k later e))
]

-- With the conflicts gone, nobody in the pool spends an input of the transaction.
pub drop_each-Unspent :
    (m : Mempool) (tx : Transaction)
    → IsKept m
    → Unspent (view (drop_each (find_conflicts m.spends (prevouts tx)) m)) tx
drop_each-Unspent m tx c o mine = elim (Option-cases (lookup o after.spends)) [
  | inl free ↦ free
  | inr (k, taken) ↦
      let l = view m in
      let ks = find_conflicts m.spends (prevouts tx) in
      let kept = drop_each-IsKept ks m c in
      let (p, there, theirs) = kept.backed k o taken in
      let there' : lookup k (drop_outs ks l).txs ≡ some p =
        ap (λ (q : Ledger). lookup k q.txs) (sym (view-drop_each ks m)) ∙ there in
      let (survives, before) = lookup-drop_outs ks l k p there' in
      absurd (
        survives (Has-find_conflicts m.spends (prevouts tx) o k mine (c.spent k p o before theirs)))
]
  where
    after : Mempool
    after = drop_each (find_conflicts m.spends (prevouts tx)) m

-- A key that the pool lacks is not there after removals either.
pub drop_each_absent :
    (ks : List Txid) (m : Mempool) (k : Txid)
    → lookup k m.entries ≡ none
    → lookup k (view (drop_each ks m)).txs ≡ none
drop_each_absent ks m k h = elim (Option-cases (lookup k (view (drop_each ks m)).txs)) [
  | inl a ↦ a
  | inr (p, a) ↦
      let a' : lookup k (drop_outs ks (view m)).txs ≡ some p =
        ap (λ (q : Ledger). lookup k q.txs) (sym (view-drop_each ks m)) ∙ a in
      let (e, there, _) = view-lookup_inv m k p (lookup-drop_outs ks (view m) k p a').1 in
      absurd (none-some h there)
]
