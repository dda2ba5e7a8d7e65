-- ===== src/Mempool/Ledger.antt =====
-- An abstract view of src/mempool/txmempool.rs: what the pool holds, without the links between its
-- entries. Removing a transaction and adding one are plain map operations here, and the methods of
-- the pool refine them.
pub mod Consistent
use btck_rust_node.Common.{
  ℕ, ◌≡◌, refl, Option, none, some, List, [], ◌∷◌, Bool, map, keys, lookup, insert, remove,
  remove_all, insert_all, adjust_all, map_values, lookup-map_values, map_values-insert,
  map_values-remove, map_values-adjust_all, nat_key, Option-cases, ok, err, arith, inl, inr, ◌∙◌,
  ap, sym,
}
use btck_rust_node.Common.Words.{add64, sub64}
use btck_rust_node.Chain.{Txid, OutPoint, outpoint_key, Transaction}
use btck_rust_node.Mempool.Entry.{
  MempoolEntry, FeeRate, update_ancestor_state, update_descendant_state,
}
use btck_rust_node.Mempool.Pool.{
  Mempool, prevouts, forget_child, forget_parent, adopt, detach, remove_tx, drop_tx, drop_each,
  attach,
}

-- The part of an entry that stays as it was added.
pub record Payload : Type 0 where
  pub tx : Transaction
  pub txid : Txid
  pub vsize : ℕ
  pub fee : ℕ
  pub fee_rate : FeeRate
  pub time : ℕ
  pub height : ℕ
  pub signals_replacement : Bool

abbrev pub payload : MempoolEntry → Payload
payload e = record {
  tx = e.tx;
  txid = e.txid;
  vsize = e.vsize;
  fee = e.fee;
  fee_rate = e.fee_rate;
  time = e.time;
  height = e.height;
  signals_replacement = e.signals_replacement;
}

pub record Ledger : Type 0 where
  pub txs : List (Txid × Payload)
  pub spends : List (OutPoint × Txid)
  pub total_size : ℕ
  pub total_fees : ℕ

abbrev pub view : Mempool → Ledger
view m = record {
  txs = map_values payload m.entries;
  spends = m.spends;
  total_size = m.total_size;
  total_fees = m.total_fees;
}

abbrev pub take_out : Ledger → Txid → Payload → Ledger
take_out l k p = record {
  txs = remove k l.txs;
  spends = remove_all (prevouts p.tx) l.spends;
  total_size = sub64 l.total_size p.vsize;
  total_fees = sub64 l.total_fees p.fee;
}

abbrev pub put_in : Ledger → Payload → Ledger
put_in l p = record {
  txs = insert p.txid p l.txs;
  spends = insert_all (prevouts p.tx) p.txid l.spends;
  total_size = add64 l.total_size p.vsize;
  total_fees = add64 l.total_fees p.fee;
}

-- Removal of a transaction if it is there.
unfoldable pub drop_out : Ledger → Txid → Ledger
drop_out l k = elim (lookup k l.txs) [ none ↦ l | some p ↦ take_out l k p ]

unfoldable pub drop_outs : List Txid → Ledger → Ledger
drop_outs [] l = l
drop_outs (k ∷ ks) l = drop_outs ks (drop_out l k)

payload-forget_child : (k : Txid) (e p : MempoolEntry) → payload (forget_child k e p) ≡ payload p
unfolding forget_child update_descendant_state
payload-forget_child k e p = refl

payload-forget_parent : (k : Txid) (e c : MempoolEntry) → payload (forget_parent k e c) ≡ payload c
unfolding forget_parent update_ancestor_state
payload-forget_parent k e c = refl

payload-adopt : (e p : MempoolEntry) → payload (adopt e p) ≡ payload p
unfolding adopt update_descendant_state
payload-adopt e p = refl

pub view-detach :
    (m : Mempool) (k : Txid) (e : MempoolEntry)
    → view (detach m k e) ≡ take_out (view m) k (payload e)
unfolding detach
view-detach m k e = rw (
  map_values-adjust_all payload (keys e.children) (forget_parent k e)
      (adjust_all (keys e.parents) (forget_child k e) (remove k m.entries))
      (payload-forget_parent k e),
  map_values-adjust_all payload (keys e.parents) (forget_child k e) (remove k m.entries)
      (payload-forget_child k e),
  map_values-remove payload k m.entries,
)

-- Linking an entry in is an insertion in the view of the books.
pub view-attach :
    (m : Mempool) (e : MempoolEntry) (now : ℕ) → view (attach m e now) ≡ put_in (view m) (payload e)
unfolding attach
view-attach m e now = rw (
  map_values-insert payload e.txid e (adjust_all (keys e.parents) (adopt e) m.entries),
  map_values-adjust_all payload (keys e.parents) (adopt e) m.entries (payload-adopt e),
)

pub view-drop_tx : (m : Mempool) (k : Txid) → view (drop_tx m k) ≡ drop_out (view m) k
unfolding drop_tx remove_tx drop_out
view-drop_tx m k = elim (Option-cases (lookup k m.entries)) [
  | inl a ↦ ground (arith, lookup-map_values payload k m.entries)
  | inr (e, a) ↦ ground (arith, lookup-map_values payload k m.entries, view-detach m k e)
]

-- Removing transactions, each if it is there, is removal in the view of the books.
pub view-drop_each : (ks : List Txid) (m : Mempool) → view (drop_each ks m) ≡ drop_outs ks (view m)
unfolding drop_each drop_outs
view-drop_each [] m = refl
view-drop_each (k ∷ ks) m = view-drop_each ks (drop_tx m k) ∙ ap (drop_outs ks) (view-drop_tx m k)
