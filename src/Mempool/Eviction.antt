-- ===== src/Mempool/Eviction.antt =====
-- `maybe_evict` of src/mempool/txmempool.rs: the pool fits its limit afterwards.
use btck_rust_node.Common.{
  ℕ, ◌≤◌, ◌≡◌, ◌≢◌, refl, sym, ap, ◌∙◌, subst, inl, inr, ◌⊎◌, Bool, none, some, List, [], ◌∷◌, map,
  lookup, Has, nat_key, some-eq, none-some, arith, Result-cases, Bool-cases, values, leb, leb→le,
  total, All, All-pairs, All-values, IsDistinct-of_map_values, ◌%◌, if_pos, ℕ_discrete, remove,
}
use btck_rust_node.Common.Words.{sub64, add64, u64_mod}
use btck_rust_node.Chain.{Txid}
use btck_rust_node.Mempool.Entry.{MempoolEntry}
use btck_rust_node.Mempool.Pool.{
  Mempool, remove_tx, evict_loop, maybe_evict, sort_by, insert_sorted, by_fee_rate,
}
use btck_rust_node.Mempool.Ledger.{Payload, payload, view, view-detach, take_out}
use btck_rust_node.Mempool.Ledger.Consistent.{left_over, size_of}
use btck_rust_node.Mempool.Books.{
  IsKept, remove_tx-IsKept, remove_tx-eq-ok, remove_tx-eq-err, view-lookup, view-lookup-none,
  view-lookup_inv, policy-detach,
}

-- The standard library's sort keeps what a list holds.
module _ {A : Type 0} (before : A → A → Bool) (P : A → Type 0) where
  All-insert_sorted : (x : A) (xs : List A) → P x → All P xs → All P (insert_sorted before x xs)
  unfolding insert_sorted
  All-insert_sorted x [] p ps = (p, tt)
  All-insert_sorted x (y ∷ ys) p ps = elim (Bool-cases (before x y)) [
    | inl yes' ↦ rw yes' (p, ps)
    | inr no' ↦ rw no' (ps.0, All-insert_sorted x ys p ps.1)
  ]

  pub All-sort_by : (xs : List A) → All P xs → All P (sort_by before xs)
  unfolding sort_by
  All-sort_by [] ps = tt
  All-sort_by (x ∷ xs) ps = All-insert_sorted x (sort_by before xs) ps.0 (All-sort_by xs ps.1)

module _ {A : Type 0} (before : A → A → Bool) (f : A → ℕ) (k : ℕ) where
  either :
      {x y : A} (xs ys : List A)
      → (f x ≡ k) ⊎ Has k (map f (y ∷ xs))
      → ((f x ≡ k) ⊎ Has k (map f xs) → Has k (map f ys))
      → (f y ≡ k) ⊎ Has k (map f ys)
  either xs ys (inl a) ih = inr (ih (inl a))
  either xs ys (inr (inl b)) ih = inl b
  either xs ys (inr (inr c)) ih = inr (ih (inr c))

  Has-insert_sorted :
      (x : A) (xs : List A)
      → (f x ≡ k) ⊎ Has k (map f xs)
      → Has k (map f (insert_sorted before x xs))
  unfolding insert_sorted
  Has-insert_sorted x [] h = h
  Has-insert_sorted x (y ∷ ys) h = elim (Bool-cases (before x y)) [
    | inl yes' ↦ rw yes' h
    | inr no' ↦
        rw no' (either ys (insert_sorted before x ys) h (λ later. Has-insert_sorted x ys later))
  ]

  pub Has-sort_by : (xs : List A) → Has k (map f xs) → Has k (map f (sort_by before xs))
  unfolding sort_by
  Has-sort_by [] h = h
  Has-sort_by (x ∷ xs) (inl a) = Has-insert_sorted x (sort_by before xs) (inl a)
  Has-sort_by (x ∷ xs) (inr b) = Has-insert_sorted x (sort_by before xs) (inr (Has-sort_by xs b))

abbrev ids : List MempoolEntry → List Txid
ids = map (λ e. e.txid)

-- The candidates that are left name every entry of the pool, and know its size.
record Queue (es : List MempoolEntry) (m : Mempool) : Type 0 where
  covers : (k : Txid) (p : Payload) → lookup k (view m).txs ≡ some p → Has k (ids es)
  knows :
      All
        (λ (x : MempoolEntry).
          (p : Payload) → lookup x.txid (view m).txs ≡ some p → p.vsize ≡ x.vsize)
        es

-- Without candidates the pool is empty.
Queue-nil : (m : Mempool) → IsKept m → Queue [] m → m.total_size ≡ 0
unfolding lookup
Queue-nil m c q = go (view m).txs refl
  where
    go : (txs : List (Txid × Payload)) → (view m).txs ≡ txs → m.total_size ≡ 0
    go [] e = c.sizes ∙ ap (λ t. total size_of t % u64_mod) e
    go ((k, p) ∷ rest) e =
        absurd (q.covers k p (ap (λ t. lookup k t) e ∙ if_pos (ℕ_discrete k k) refl _ _))

-- A candidate that is gone already.
Queue-skip :
    (x : MempoolEntry) (es : List MempoolEntry) (m : Mempool)
    → lookup x.txid (view m).txs ≡ none
    → Queue (x ∷ es) m
    → Queue es m
Queue-skip x es m gone q = record { covers = covers'; knows = q.knows.1 }
  where
    covers' : (k : Txid) (p : Payload) → lookup k (view m).txs ≡ some p → Has k (ids es)
    covers' k p h = elim (q.covers k p h) [
      | inl same ↦ absurd (none-some gone (ap (λ t. lookup t (view m).txs) same ∙ h))
      | inr later ↦ later
    ]

-- A candidate that is removed.
Queue-remove :
    (x : MempoolEntry) (es : List MempoolEntry) (m m' : Mempool)
    → (view m').txs ≡ remove x.txid (view m).txs
    → Queue (x ∷ es) m
    → Queue es m'
Queue-remove x es m m' same q = record { covers = covers'; knows = knows' es q.knows.1 }
  where
    back :
        (k : Txid) (p : Payload)
        → lookup k (view m').txs ≡ some p
        → (x.txid ≢ k) × (lookup k (view m).txs ≡ some p)
    back k p h = left_over x.txid k p (view m).txs (ap (λ t. lookup k t) (sym same) ∙ h)

    covers' : (k : Txid) (p : Payload) → lookup k (view m').txs ≡ some p → Has k (ids es)
    covers' k p h = elim (q.covers k p (back k p h).1) [
      | inl a ↦ absurd ((back k p h).0 a)
      | inr later ↦ later
    ]

    knows' :
        (ys : List MempoolEntry)
        → All
            (λ (y : MempoolEntry).
              (p : Payload) → lookup y.txid (view m).txs ≡ some p → p.vsize ≡ y.vsize)
            ys
        → All
            (λ (y : MempoolEntry).
              (p : Payload) → lookup y.txid (view m').txs ≡ some p → p.vsize ≡ y.vsize)
            ys
    knows' [] k = tt
    knows' (y ∷ ys) k = ((λ p h. k.0 p (back y.txid p h).1), knows' ys k.1)

sub64-add64 : (a b c : ℕ) → sub64 a (add64 b c) ≡ sub64 (sub64 a b) c
sub64-add64 a b c = omega arith

-- `current - evicted` is the pool's size all along, so the loop stops below the limit.
evict_loop-le :
    (current evicted : ℕ) (es : List MempoolEntry) (m : Mempool)
    → IsKept m
    → Queue es m
    → sub64 current evicted ≡ m.total_size
    → (evict_loop current evicted es m).total_size ≤ m.policy.max_size
unfolding evict_loop
evict_loop-le current evicted [] m c q now = omega (arith, Queue-nil m c q)
evict_loop-le current evicted (x ∷ es) m c q now =
    elim (Bool-cases (leb (sub64 current evicted) m.policy.max_size)) [
      | inl enough ↦ rw (enough, evict_loop) (omega (arith, leb→le _ _ enough))
      | inr more ↦ elim (Result-cases (remove_tx m x.txid)) [
        | inl ((m', e), a) ↦
            let (there, same) = remove_tx-eq-ok m x.txid a in
            let shrunk : view m' ≡ take_out (view m) x.txid (payload e) =
              ap view same ∙ view-detach m x.txid e in
            let sized : e.vsize ≡ x.vsize = q.knows.0 (payload e) (view-lookup m x.txid e there) in
            let limit : m'.policy.max_size ≡ m.policy.max_size =
              ap (λ t. t.policy.max_size) same ∙ ap (λ t. t.max_size) (policy-detach m x.txid e) in
            let next : sub64 current (add64 evicted x.vsize) ≡ m'.total_size =
              sub64-add64 current evicted x.vsize
              ∙ ap (λ t. sub64 t x.vsize) now
              ∙ ap (λ t. sub64 m.total_size t) (sym sized)
              ∙ ap (λ l. l.total_size) (sym shrunk) in
            rw (more, evict_loop, a)
              (omega (
                arith,
                limit,
                evict_loop-le current (add64 evicted x.vsize) es m' (remove_tx-IsKept m x.txid c a)
                    (Queue-remove x es m m' (ap (λ l. l.txs) shrunk) q) next,
              ))
        | inr (y, a) ↦
            rw (more, evict_loop, a)
              (evict_loop-le current evicted es m c
                (Queue-skip x es m (view-lookup-none m x.txid (remove_tx-eq-err m x.txid a)) q) now)
      ]
    ]

Has-values :
    (k : Txid) (e : MempoolEntry) (m : List (Txid × MempoolEntry))
    → lookup k m ≡ some e
    → Has e.txid (ids (values m))
unfolding lookup
Has-values k e [] h = absurd (none-some refl h)
Has-values k e ((j, x) ∷ m) h = elim (ℕ_discrete j k) [
  | yes p ↦ inl (ground arith)
  | no p ↦ inr (Has-values k e m (ground arith))
]

-- An entry of the pool knows its own size.
known :
    (m : Mempool)
    → IsKept m
    → (k : Txid) (x : MempoolEntry) → lookup k m.entries ≡ some x
    → (p : Payload) → lookup x.txid (view m).txs ≡ some p
    → p.vsize ≡ x.vsize
known m c k x h p found =
    let there = view-lookup m k x h in
    let name : x.txid ≡ k = (c.named k (payload x) there).0 in
    ap (λ t. t.vsize) (some-eq (sym found ∙ ap (λ t. lookup t (view m).txs) name ∙ there))

-- At the start of the loop the candidates are all entries.
Queue-start : (m : Mempool) → IsKept m → Queue (sort_by by_fee_rate (values m.entries)) m
Queue-start m c = record {
  covers = λ k p h.
      let (e, there, same) = view-lookup_inv m k p h in
      let name : e.txid ≡ k = ap (λ t. t.txid) same ∙ (c.named k p h).0 in
      Has-sort_by by_fee_rate (λ e. e.txid) k (values m.entries)
        (subst (λ t. Has t (ids (values m.entries))) name (Has-values k e m.entries there));
  knows =
      All-sort_by by_fee_rate
        (λ (x : MempoolEntry).
          (p : Payload) → lookup x.txid (view m).txs ≡ some p → p.vsize ≡ x.vsize)
        (values m.entries)
        (All-values
          (λ (x : MempoolEntry).
            (p : Payload) → lookup x.txid (view m).txs ≡ some p → p.vsize ≡ x.vsize)
          m.entries
          (All-pairs
            (λ (k : Txid) (x : MempoolEntry).
              (p : Payload) → lookup x.txid (view m).txs ≡ some p → p.vsize ≡ x.vsize)
            m.entries (IsDistinct-of_map_values payload m.entries c.distinct) (known m c)));
}

-- A pool whose books are in order (its names, its counters and its spends, as IsKept says) fits its
-- limit after `maybe_evict`.
pub maybe_evict-le : (m : Mempool) → IsKept m → (maybe_evict m).total_size ≤ m.policy.max_size
unfolding maybe_evict
maybe_evict-le m c = elim (Bool-cases (leb m.total_size m.policy.max_size)) [
  | inl enough ↦ rw enough (leb→le _ _ enough)
  | inr more ↦ rw more (
      evict_loop-le m.total_size 0 (sort_by by_fee_rate (values m.entries)) m c (Queue-start m c)
        (omega (arith, c.sizes)))
]
