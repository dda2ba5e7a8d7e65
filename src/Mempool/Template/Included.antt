-- ===== src/Mempool/Template/Included.antt =====
-- What a block template includes, and one more transaction of it (`get_block_template` of
-- src/mempool/txmempool.rs).
use btck_rust_node.Common.{
  ◌≡◌, ◌⊎◌, refl, sym, ap, ◌∙◌, subst, inl, inr, true, false, some, List, [], ◌∷◌, ◌++◌, arith,
  nat_key, lookup, contains, lookup-insert, Bool-cases, Has, Has-append, append-Has_left,
  append-Has_right, All, IsUnique, IsUnique-append_one,
}
use btck_rust_node.Chain.{Txid, Transaction}
use btck_rust_node.Mempool.Entry.{MempoolEntry}
use btck_rust_node.Mempool.Induction.{Entries}
use btck_rust_node.Mempool.Flags.{flag, has_parent}
use btck_rust_node.Mempool.Template.{Template, include}

abbrev pub ids : List Transaction → List Txid
ids [] = []
ids (tx ∷ txs) = tx.compute_txid ∷ ids txs

ids-append : (xs ys : List Transaction) → ids (xs ++ ys) ≡ ids xs ++ ids ys
ids-append [] ys = refl
ids-append (x ∷ xs) ys = ap (λ r. x.compute_txid ∷ r) (ids-append xs ys)

-- A transaction is that of an entry, under its id.
abbrev pub InPool : Entries → Transaction → Type 0
InPool es tx = (e : MempoolEntry) × (lookup tx.compute_txid es ≡ some e) × (e.tx ≡ tx)

All-append_one :
    {A : Type 0} (P : A → Type 0) (xs : List A) (x : A) → All P xs → P x → All P (xs ++ x ∷ [])
All-append_one P [] x h p = (p, tt)
All-append_one P (y ∷ xs) x h p = (h.0, All-append_one P xs x h.1 p)

module _ (es : Entries) where
  -- The template and the ids that it includes, at any time.
  pub record IsTemplate (t : Template) : Type 0 where
    pub unique : IsUnique (ids t.template)
    pub listed : (x : Txid) → Has x (ids t.template) → contains x t.included ≡ true
    pub included : (x : Txid) → contains x t.included ≡ true → Has x (ids t.template)
    pub pooled : All (InPool es) t.template

  -- With a transaction its parents are included.
  abbrev pub IsClosed : Template → Type 0
  IsClosed t =
      (x p : Txid)
      → contains x t.included ≡ true
      → flag (has_parent p) x es ≡ true
      → contains p t.included ≡ true

  pub include-IsTemplate :
      (e : MempoolEntry) (k : Txid) (t : Template)
      → IsTemplate t
      → lookup k es ≡ some e
      → e.tx.compute_txid ≡ k
      → contains k t.included ≡ false
      → IsTemplate (include e k t)
  unfolding include
  include-IsTemplate e k t v h n new = record {
    unique = subst IsUnique (sym more) (
        IsUnique-append_one (ids t.template) e.tx.compute_txid v.unique
          (λ q. ground (arith, v.listed e.tx.compute_txid q)));
    listed = λ x q.
        elim (Has-append x (ids t.template) (e.tx.compute_txid ∷ []) (subst (Has x) more q)) [
          | inl old ↦ ground (arith, v.listed x old, lookup-insert k x tt t.included)
          | inr (inl same) ↦ ground (arith, lookup-insert k x tt t.included)
          | inr (inr z) ↦ elim z [ ]
        ];
    included = λ x q. subst (Has x) (sym more) (elim (Bool-cases (contains x t.included)) [
      | inl old ↦ append-Has_left x (ids t.template) (e.tx.compute_txid ∷ []) (v.included x old)
      | inr fresh ↦
          append-Has_right x (ids t.template) (e.tx.compute_txid ∷ [])
            (inl (ground (arith, lookup-insert k x tt t.included)))
    ]);
    pooled =
        All-append_one (InPool es) t.template e.tx v.pooled (e, ap (λ j. lookup j es) n ∙ h, refl);
  }
    where
      more : ids (t.template ++ e.tx ∷ []) ≡ ids t.template ++ e.tx.compute_txid ∷ []
      more = ids-append t.template (e.tx ∷ [])

  pub grow :
      (e : MempoolEntry) (k x : Txid) (t : Template)
      → contains x t.included ≡ true
      → contains x (include e k t).included ≡ true
  unfolding include
  grow e k x t h = ground (arith, lookup-insert k x tt t.included)

  pub joined :
      (e : MempoolEntry) (k x : Txid) (t : Template)
      → k ≡ x
      → contains x (include e k t).included ≡ true
  unfolding include
  joined e k x t h = ground (arith, lookup-insert k x tt t.included)

  pub split :
      (e : MempoolEntry) (k x : Txid) (t : Template)
      → contains x (include e k t).included ≡ true
      → (contains x t.included ≡ true) ⊎ (k ≡ x)
  unfolding include
  split e k x t h = ground (arith, lookup-insert k x tt t.included)
