-- ===== src/Mempool/Ledger/Consistent.antt =====
-- The books of the pool are in order: an invariant of the abstract view, kept by adding and
-- removing (src/mempool/txmempool.rs).
use btck_rust_node.Common.{
  ℕ, ◌%◌, ◌≡◌, ◌≢◌, sym, ap, ◌∙◌, inl, inr, none, some, List, [], ◌∷◌, lookup, insert, remove,
  remove_all, insert_all, IsDistinct, total, Has, dec_Has, nat_key, lookup-insert, lookup-remove,
  insert-IsDistinct, remove-IsDistinct, total-insert_new, total-remove, lookup-remove_all-Has,
  lookup-remove_all_other, lookup-insert_all-Has, lookup-insert_all_other, Option-cases, some-eq,
  none-some, arith, subst, ℕ_discrete, if_pos, if_neg,
}
use btck_rust_node.Common.Words.{u64_mod}
use btck_rust_node.Chain.{Txid, OutPoint, outpoint_key, Transaction}
use btck_rust_node.Mempool.Pool.{prevouts}
use btck_rust_node.Mempool.Ledger.{Ledger, Payload, take_out, put_in, drop_out, drop_outs}

abbrev pub size_of : Txid × Payload → ℕ
size_of kp = kp.1.vsize

abbrev pub fee_of : Txid × Payload → ℕ
fee_of kp = kp.1.fee

pub record IsConsistent (l : Ledger) : Type 0 where
  pub distinct : IsDistinct l.txs
  -- an entry stands under its transaction's id
  pub named :
      (k : Txid) (p : Payload) → lookup k l.txs ≡ some p → (p.txid ≡ k) × (p.tx.compute_txid ≡ k)
  -- the counters are the sums over the entries, as u64
  pub sizes : l.total_size ≡ total size_of l.txs % u64_mod
  pub fees : l.total_fees ≡ total fee_of l.txs % u64_mod
  -- the outpoints that an entry spends are on record as its own
  pub spent :
      (k : Txid) (p : Payload) (o : OutPoint)
      → lookup k l.txs ≡ some p
      → Has o (prevouts p.tx)
      → lookup o l.spends ≡ some k
  -- and nothing else is on record
  pub backed :
      (k : Txid) (o : OutPoint)
      → lookup o l.spends ≡ some k
      → (p : Payload) × (lookup k l.txs ≡ some p) × Has o (prevouts p.tx)

-- An entry that is left was there before, under another key.
pub left_over :
    (k j : Txid) (q : Payload) (m : List (Txid × Payload))
    → lookup j (remove k m) ≡ some q
    → (k ≢ j) × (lookup j m ≡ some q)
left_over k j q m h = elim (ℕ_discrete k j) [
  | yes p ↦ absurd (ground (arith, lookup-remove k j m))
  | no p ↦ (p, ground (arith, lookup-remove k j m))
]

module _ (l : Ledger) (c : IsConsistent l) (k : Txid) (p : Payload)
    (here : lookup k l.txs ≡ some p) where
  others_spends :
      (j : Txid) (q : Payload) (o : OutPoint)
      → k ≢ j
      → lookup j l.txs ≡ some q
      → Has o (prevouts q.tx)
      → ¬ Has o (prevouts p.tx)
  others_spends j q o ne there mine theirs =
      ne (some-eq (sym (c.spent k p o here theirs) ∙ c.spent j q o there mine))

  take_out_spent :
      (j : Txid) (q : Payload) (o : OutPoint)
      → lookup j (remove k l.txs) ≡ some q
      → Has o (prevouts q.tx)
      → lookup o (remove_all (prevouts p.tx) l.spends) ≡ some j
  take_out_spent j q o h mine =
      let (ne, there) = left_over k j q l.txs h in
      lookup-remove_all_other o (prevouts p.tx) l.spends (others_spends j q o ne there mine)
      ∙ c.spent j q o there mine

  same_payload : (j : Txid) (q : Payload) → k ≡ j → lookup j l.txs ≡ some q → q ≡ p
  same_payload j q same there = some-eq (sym there ∙ ap (λ t. lookup t l.txs) (sym same) ∙ here)

  take_out_backed :
      (j : Txid) (o : OutPoint)
      → lookup o (remove_all (prevouts p.tx) l.spends) ≡ some j
      → (q : Payload) × (lookup j (remove k l.txs) ≡ some q) × Has o (prevouts q.tx)
  take_out_backed j o h = elim (dec_Has o (prevouts p.tx)) [
    | yes gone ↦ absurd (cc (lookup-remove_all-Has o (prevouts p.tx) l.spends gone))
    | no kept ↦
        let (q, there, mine) =
          c.backed j o (sym (lookup-remove_all_other o (prevouts p.tx) l.spends kept) ∙ h) in
        elim (ℕ_discrete k j) [
          | yes same ↦ absurd (
              kept
                (subst (λ (r : Payload). Has o (prevouts r.tx)) (same_payload j q same there) mine))
          | no ne ↦ (q, lookup-remove k j l.txs ∙ if_neg (ℕ_discrete k j) ne _ _ ∙ there, mine)
        ]
  ]

  pub take_out-IsConsistent : IsConsistent (take_out l k p)
  take_out-IsConsistent = record {
    distinct = remove-IsDistinct k l.txs c.distinct;
    named = λ j q h. c.named j q (left_over k j q l.txs h).1;
    sizes = omega (arith, c.sizes, total-remove size_of k p l.txs c.distinct here);
    fees = omega (arith, c.fees, total-remove fee_of k p l.txs c.distinct here);
    spent = take_out_spent;
    backed = take_out_backed;
  }

-- The outpoints that a transaction spends are on nobody's record.
abbrev pub Unspent : Ledger → Transaction → Type 0
Unspent l tx = (o : OutPoint) → Has o (prevouts tx) → lookup o l.spends ≡ none

module _ (l : Ledger) (c : IsConsistent l) (p : Payload) (name : p.tx.compute_txid ≡ p.txid)
    (new : lookup p.txid l.txs ≡ none) (free : Unspent l p.tx) where
  put_in_named :
      (j : Txid) (q : Payload)
      → lookup j (insert p.txid p l.txs) ≡ some q
      → (q.txid ≡ j) × (q.tx.compute_txid ≡ j)
  put_in_named j q h = elim (ℕ_discrete p.txid j) [
    | yes same ↦
        let e : p ≡ q =
          some-eq
            (sym (lookup-insert p.txid j p l.txs ∙ if_pos (ℕ_discrete p.txid j) same _ _) ∙ h) in
        rw (← e) (same, name ∙ same)
    | no ne ↦
        c.named j q (sym (lookup-insert p.txid j p l.txs ∙ if_neg (ℕ_discrete p.txid j) ne _ _) ∙ h)
  ]

  put_in_spent :
      (j : Txid) (q : Payload) (o : OutPoint)
      → lookup j (insert p.txid p l.txs) ≡ some q
      → Has o (prevouts q.tx)
      → lookup o (insert_all (prevouts p.tx) p.txid l.spends) ≡ some j
  put_in_spent j q o h mine = elim (ℕ_discrete p.txid j) [
    | yes same ↦
        let e : q ≡ p =
          some-eq
            (sym h ∙ lookup-insert p.txid j p l.txs ∙ if_pos (ℕ_discrete p.txid j) same _ _) in
        lookup-insert_all-Has o (prevouts p.tx) p.txid l.spends
          (subst (λ (r : Payload). Has o (prevouts r.tx)) e mine)
        ∙ ap some same
    | no ne ↦
        let there : lookup j l.txs ≡ some q =
          sym (lookup-insert p.txid j p l.txs ∙ if_neg (ℕ_discrete p.txid j) ne _ _) ∙ h in
        lookup-insert_all_other o (prevouts p.tx) p.txid l.spends
          (λ theirs. none-some (free o theirs) (c.spent j q o there mine))
        ∙ c.spent j q o there mine
  ]

  put_in_backed :
      (j : Txid) (o : OutPoint)
      → lookup o (insert_all (prevouts p.tx) p.txid l.spends) ≡ some j
      → (q : Payload) × (lookup j (insert p.txid p l.txs) ≡ some q) × Has o (prevouts q.tx)
  put_in_backed j o h = elim (dec_Has o (prevouts p.tx)) [
    | yes mine ↦
        let same : p.txid ≡ j =
          some-eq (sym (lookup-insert_all-Has o (prevouts p.tx) p.txid l.spends mine) ∙ h) in
        (p, lookup-insert p.txid j p l.txs ∙ if_pos (ℕ_discrete p.txid j) same _ _, mine)
    | no other ↦
        let (q, there, mine) =
          c.backed j o
            (sym (lookup-insert_all_other o (prevouts p.tx) p.txid l.spends other) ∙ h) in
        elim (ℕ_discrete p.txid j) [
          | yes same ↦ absurd (none-some new (ap (λ t. lookup t l.txs) same ∙ there))
          | no ne ↦ (
            q,
            lookup-insert p.txid j p l.txs ∙ if_neg (ℕ_discrete p.txid j) ne _ _ ∙ there,
            mine,
          )
        ]
  ]

  pub put_in-IsConsistent : IsConsistent (put_in l p)
  put_in-IsConsistent = record {
    distinct = insert-IsDistinct p.txid p l.txs c.distinct;
    named = put_in_named;
    sizes = omega (arith, c.sizes, total-insert_new size_of p.txid p l.txs new);
    fees = omega (arith, c.fees, total-insert_new fee_of p.txid p l.txs new);
    spent = put_in_spent;
    backed = put_in_backed;
  }

pub drop_out-IsConsistent : (l : Ledger) (k : Txid) → IsConsistent l → IsConsistent (drop_out l k)
unfolding drop_out
drop_out-IsConsistent l k c = elim (Option-cases (lookup k l.txs)) [
  | inl a ↦ rw (a, drop_out) c
  | inr (p, a) ↦ rw (a, drop_out) (take_out-IsConsistent l c k p a)
]

pub drop_outs-IsConsistent :
    (ks : List Txid) (l : Ledger) → IsConsistent l → IsConsistent (drop_outs ks l)
unfolding drop_outs
drop_outs-IsConsistent [] l c = c
drop_outs-IsConsistent (k ∷ ks) l c =
    drop_outs-IsConsistent ks (drop_out l k) (drop_out-IsConsistent l k c)

-- What is left after a removal was there before, under another key.
lookup-drop_out :
    (l : Ledger) (k j : Txid) (q : Payload)
    → lookup j (drop_out l k).txs ≡ some q
    → (k ≢ j) × (lookup j l.txs ≡ some q)
unfolding drop_out
lookup-drop_out l k j q h = elim (Option-cases (lookup k l.txs)) [
  | inl a ↦
      let h' : lookup j l.txs ≡ some q = ground arith in
      ((λ e. none-some a (ap (λ t. lookup t l.txs) e ∙ h')), h')
  | inr (p, a) ↦ left_over k j q l.txs (ground arith)
]

pub lookup-drop_outs :
    (ks : List Txid) (l : Ledger) (j : Txid) (q : Payload)
    → lookup j (drop_outs ks l).txs ≡ some q
    → (¬ Has j ks) × (lookup j l.txs ≡ some q)
unfolding drop_outs
lookup-drop_outs [] l j q h = ((λ a. a), h)
lookup-drop_outs (k ∷ ks) l j q h =
    let (kept, there) = lookup-drop_outs ks (drop_out l k) j q h in
    let (ne, before) = lookup-drop_out l k j q there in
    ((λ a. elim a [ inl e ↦ ne e | inr b ↦ kept b ]), before)
