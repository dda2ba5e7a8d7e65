-- ===== src/Mempool/Replacement.antt =====
-- What a replacement in the pool has passed (src/mempool/txmempool.rs).
use btck_rust_node.Common.{
  ℕ, ◌+◌, ◌<◌, ◌%◌, ◌^◌, ◌≤◌, ◌-◌, ◌≡◌, refl, ◌↔◌, ltb, true, false, none, some, List, [], ◌∷◌, ok,
  lookup, nat_key, Has, arith, inl, inr, some-eq, none-some, Option-cases, Result-cases, Bool-cases,
  ap, sym, ◌∙◌, subst,
}
use btck_rust_node.Common.Int.{ℤ, pos, add_pos}
use btck_rust_node.Common.Words.{u64_mod, add64, add_i64, sub_i64, as_i64, as_u64}
use btck_rust_node.Chain.{Txid}
use btck_rust_node.Mempool.Entry.{MempoolEntry}
use btck_rust_node.Mempool.Policy.{check_rbf, min_bump}
use btck_rust_node.Mempool.Pool.{Mempool, sum_conflicts, handle_replacement, drop_each}

sum_conflicts-signals :
    (entries : List (Txid × MempoolEntry)) (ks : List Txid) (fees : ℕ) (size : ℤ) {r : ℕ × ℤ}
    → sum_conflicts entries ks fees size ≡ ok r
    → (k : Txid) (e : MempoolEntry) → Has k ks
    → lookup k entries ≡ some e
    → e.signals_replacement ≡ true
unfolding sum_conflicts
sum_conflicts-signals entries [] fees size h k e q f = absurd q
sum_conflicts-signals entries (j ∷ ks) fees size h k e q f =
    elim (Option-cases (lookup j entries)) [
      | inl a ↦
          let rest : sum_conflicts entries ks fees size ≡ ok _ = rw (a, sum_conflicts) at h in
          elim q [
            | inl p ↦ absurd (none-some (subst (λ x. lookup x entries ≡ none) p a) f)
            | inr p ↦ sum_conflicts-signals entries ks fees size rest k e p f
          ]
      | inr (c, a) ↦ elim (Bool-cases c.signals_replacement) [
        | inr s ↦ absurd (ground arith)
        | inl s ↦
            let rest : sum_conflicts entries ks (add64 fees c.fee) (add_i64 size (as_i64 c.vsize))
                ≡ ok _ =
              rw (a, s, sum_conflicts) at h in
            elim q [
              | inl p ↦
                  let same : c ≡ e = some-eq (sym a ∙ ap (λ x. lookup x entries) p ∙ f) in
                  sym (ap (λ x. x.signals_replacement) same) ∙ s
              | inr p ↦ sum_conflicts-signals entries ks _ _ rest k e p f
            ]
      ]
    ]

-- The fees, and the sizes, of the entries of some transactions.
unfoldable pub total_fee : List (Txid × MempoolEntry) → List Txid → ℕ
total_fee entries [] = 0
total_fee entries (k ∷ ks) = elim (lookup k entries) [
  | none ↦ total_fee entries ks
  | some e ↦ e.fee + total_fee entries ks
]

unfoldable pub total_vsize : List (Txid × MempoolEntry) → List Txid → ℕ
total_vsize entries [] = 0
total_vsize entries (k ∷ ks) = elim (lookup k entries) [
  | none ↦ total_vsize entries ks
  | some e ↦ e.vsize + total_vsize entries ks
]

add_i64_small : (a b : ℕ) → a + b < 2 ^ 63 → add_i64 (pos a) (as_i64 b) ≡ pos (a + b)
add_i64_small a b h = ap (add_i64 (pos a)) small ∙ ap (λ z. as_i64 (as_u64 z)) (add_pos a b) ∙ whole
  where
    small : as_i64 b ≡ pos b
    small = ground arith

    whole : as_i64 ((a + b) % u64_mod) ≡ pos (a + b)
    whole = ground arith

-- If all signal, the loop adds up their fees and sizes.
sum_conflicts_lem :
    (entries : List (Txid × MempoolEntry)) (ks : List Txid) (fees size : ℕ)
    → ((k : Txid) (e : MempoolEntry)
        → Has k ks
        → lookup k entries ≡ some e
        → e.signals_replacement ≡ true)
    → fees + total_fee entries ks < u64_mod
    → size + total_vsize entries ks < 2 ^ 63
    → sum_conflicts entries ks fees (pos size)
      ≡ ok (fees + total_fee entries ks, pos (size + total_vsize entries ks))
unfolding sum_conflicts total_fee total_vsize
sum_conflicts_lem entries [] fees size s f v =
    ap ok (ap (λ n. (n, pos size)) (sums fees) ∙ ap (λ n. (fees + 0, pos n)) (sums size))
  where
    sums : (n : ℕ) → n ≡ n + 0
    sums n = omega arith
sum_conflicts_lem entries (k ∷ ks) fees size s f v = elim (Option-cases (lookup k entries)) [
  | inl a ↦
      let f' : fees + total_fee entries ks < u64_mod = rw (a, total_fee) at f in
      let v' : size + total_vsize entries ks < 2 ^ 63 = rw (a, total_vsize) at v in
      rw (a, sum_conflicts, total_fee, total_vsize)
        (sum_conflicts_lem entries ks fees size (λ j e q. s j e (inr q)) f' v')
  | inr (c, a) ↦
      let f' : fees + (c.fee + total_fee entries ks) < u64_mod = rw (a, total_fee) at f in
      let v' : size + (c.vsize + total_vsize entries ks) < 2 ^ 63 = rw (a, total_vsize) at v in
      let fee_sum : add64 fees c.fee ≡ fees + c.fee = omega (arith, f') in
      let ih =
        sum_conflicts_lem entries ks (fees + c.fee) (size + c.vsize) (λ j e q. s j e (inr q))
          (omega (arith, f')) (omega (arith, v')) in
      let assoc_fee : fees + c.fee + total_fee entries ks ≡ fees + (c.fee + total_fee entries ks) =
        omega arith in
      let assoc_size : size + c.vsize + total_vsize entries ks
          ≡ size + (c.vsize + total_vsize entries ks) =
        omega arith in
      rw (a, s k c (inl refl) a, sum_conflicts, total_fee, total_vsize)
        (rw (fee_sum, add_i64_small size c.vsize (omega (arith, v')), ← assoc_fee, ← assoc_size) ih)
]

-- When a replacement with these conflicts is accepted.
pub record IsReplacing (m : Mempool) (new : MempoolEntry) (ks : List Txid) : Type 0 where
  pub enabled : m.policy.enable_rbf ≡ true
  pub signals : new.signals_replacement ≡ true
  pub replaceable :
      (k : Txid) (e : MempoolEntry)
      → Has k ks
      → lookup k m.entries ≡ some e
      → e.signals_replacement ≡ true
  pub pays :
      min_bump m.policy (sub_i64 (as_i64 new.vsize) (pos (total_vsize m.entries ks)))
      ≤ new.fee - total_fee m.entries ks

-- The sums that `handle_replacement` takes.
sums_of :
    (entries : List (Txid × MempoolEntry)) (ks : List Txid)
    → ((k : Txid) (e : MempoolEntry)
        → Has k ks
        → lookup k entries ≡ some e
        → e.signals_replacement ≡ true)
    → total_fee entries ks < u64_mod
    → total_vsize entries ks < 2 ^ 63
    → sum_conflicts entries ks 0 (pos 0) ≡ ok (total_fee entries ks, pos (total_vsize entries ks))
sums_of entries ks s f v =
    let fee_sum : 0 + total_fee entries ks ≡ total_fee entries ks = omega arith in
    let size_sum : 0 + total_vsize entries ks ≡ total_vsize entries ks = omega arith in
    sum_conflicts_lem entries ks 0 0 s (omega (arith, f)) (omega (arith, v))
    ∙ ap ok (
        ap (λ n. (n, pos (0 + total_vsize entries ks))) fee_sum
        ∙ ap (λ n. (total_fee entries ks, pos n)) size_sum)

handle_replacement-IsReplacing :
    (m : Mempool) (new : MempoolEntry) (ks : List Txid) {m' : Mempool}
    → total_fee m.entries ks < u64_mod
    → total_vsize m.entries ks < 2 ^ 63
    → handle_replacement m new ks ≡ ok m'
    → IsReplacing m new ks × (m' ≡ drop_each ks m)
unfolding handle_replacement check_rbf
handle_replacement-IsReplacing m new ks {m'} f v h =
    elim (Result-cases (sum_conflicts m.entries ks 0 (pos 0))) [
      | inr (x, a) ↦ absurd (ground arith)
      | inl (r, a) ↦
          let all = sum_conflicts-signals m.entries ks 0 (pos 0) a in
          let e = sums_of m.entries ks all f v in
          let h' = rw (e, handle_replacement) at h in
          (
            record {
              enabled = ground arith;
              signals = ground arith;
              replaceable = all;
              pays = ground arith;
            },
            ground arith,
          )
    ]

IsReplacing-handle_replacement :
    (m : Mempool) (new : MempoolEntry) (ks : List Txid)
    → total_fee m.entries ks < u64_mod
    → total_vsize m.entries ks < 2 ^ 63
    → IsReplacing m new ks
    → handle_replacement m new ks ≡ ok (drop_each ks m)
unfolding handle_replacement check_rbf
IsReplacing-handle_replacement m new ks f v w =
    let enough : ltb (new.fee - total_fee m.entries ks)
          (min_bump m.policy (sub_i64 (as_i64 new.vsize) (pos (total_vsize m.entries ks))))
        ≡ false =
      ground (arith, w.pays) in
    rw (sums_of m.entries ks w.replaceable f v, handle_replacement, w.enabled, w.signals, enough)
      refl

-- The replacement of `ks` by a new transaction succeeds exactly if replacement is enabled, the new
-- transaction and every conflict in the pool signal it, and what the new fee adds to the sum of the
-- conflicts' fees (nothing, if it is less) covers the bump for the difference of the new size and the
-- sum of their sizes; the pool afterwards is the one without the conflicts. The sums of the
-- conflicts' fees and sizes are below 2^64 and 2^63.
pub handle_replacement_iff :
    (m : Mempool) (new : MempoolEntry) (ks : List Txid) (m' : Mempool)
    → total_fee m.entries ks < u64_mod
    → total_vsize m.entries ks < 2 ^ 63
    → (handle_replacement m new ks ≡ ok m') ↔ (IsReplacing m new ks × (m' ≡ drop_each ks m))
handle_replacement_iff m new ks m' f v = (
  handle_replacement-IsReplacing m new ks f v,
  λ w. IsReplacing-handle_replacement m new ks f v w.0 ∙ ap ok (sym w.1),
)
