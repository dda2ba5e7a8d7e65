-- ===== src/Mempool/Template/Found.antt =====
-- `get_ancestors` (src/mempool/txmempool.rs) answers the transactions that a transaction depends on.
use btck_rust_node.Common.{
  ℕ, zero, suc, ◌≡◌, ◌<◌, ◌↔◌, refl, sym, ap, subst, inl, inr, List, [], ◌∷◌, ◌==◌, ◌||◌, arith,
  nat_key, keys, lookup, contains, add, HashSet, lookup-insert, Bool-cases, Option-cases, Has,
}
use btck_rust_node.Chain.{Txid}
use btck_rust_node.Mempool.Induction.{Entries}
use btck_rust_node.Mempool.Order.{index, IsOrdered}
use btck_rust_node.Mempool.Template.{
  Visit, visit, visit_next, visit_loop, enough_rounds, start_visit, get_ancestors,
}
use btck_rust_node.Mempool.Template.Ancestors.{
  visited-push_parents, List-cases, visit_next_done, get_ancestors-ends,
}
use btck_rust_node.Mempool.Template.Reach.{
  Ancestor, parent, further, Known, IsVisiting, IsClosed, visit-IsVisiting,
}

module _ (es : Entries) (k : Txid) where
  visited-visit : (c : Txid) (s : Visit) → (visit es c s).visited ≡ add c s.visited
  unfolding visit
  visited-visit c s = elim (Option-cases (lookup c es)) [
    | inl a ↦ rw (a, visit) refl
    | inr (e, a) ↦ rw (a, visit) (visited-push_parents (keys e.parents) _)
  ]

  pop-IsVisiting :
      (c : Txid) (rest : List Txid) (s : Visit) (visited : HashSet Txid)
      → IsVisiting es k s
      → s.to_visit ≡ c ∷ rest
      → ((x : Txid) → contains x visited ≡ contains x s.visited || (c == x))
      → IsVisiting es k (record s { to_visit = rest; visited = visited })
  pop-IsVisiting c rest s visited v h same = record {
    sound = v.sound;
    stacked = λ x q. v.stacked x (subst (Has x) (sym h) (inr q));
    seen = λ x q. elim (Bool-cases (contains x s.visited)) [
      | inl t ↦ v.seen x t
      | inr t ↦ v.stacked x (subst (Has x) (sym h) (inl (ground (arith, same x))))
    ];
    pending = λ x q. elim (v.pending x q) [
      | inl t ↦ inl (ground (arith, same x))
      | inr t ↦ elim (subst (Has x) h t) [
        | inl e ↦ inl (ground (arith, same x))
        | inr later ↦ inr later
      ]
    ];
  }

  visit_next_lem :
      (s : Visit)
      → IsVisiting es k s
      → IsClosed es k s
      → IsVisiting es k (visit_next es s) × IsClosed es k (visit_next es s)
  unfolding visit_next IsClosed
  visit_next_lem s v w = elim (List-cases s.to_visit) [
    | inl a ↦ rw (visit_next_done es s a) (v, w)
    | inr (c, rest, a) ↦ elim (Bool-cases (contains c s.visited)) [
      | inl t ↦ rw (a, visit_next, t) (pop-IsVisiting c rest s s.visited v a (λ x. ground arith), w)
      | inr t ↦
          let popped : Visit = record s { to_visit = rest } in
          let found : Known k s c = v.stacked c (subst (Has c) (sym a) (inl refl)) in
          let (v', more, all) =
            visit-IsVisiting es k c popped
              (pop-IsVisiting c rest s (add c s.visited) v a
                (λ x. ground (arith, lookup-insert c x tt s.visited)))
              found in
          rw (a, visit_next, t)
            (
              v',
              λ x p q r. elim (Bool-cases (contains x s.visited)) [
                | inl u ↦ more p (w x p u r)
                | inr u ↦ all p (
                    ground (
                      arith,
                      r,
                      q,
                      ap (λ (y : HashSet Txid). contains x y) (visited-visit c popped),
                      lookup-insert c x tt s.visited,
                    ))
              ],
            )
    ]
  ]

  visit_loop_lem :
      (n : ℕ) (s : Visit)
      → IsVisiting es k s
      → IsClosed es k s
      → IsVisiting es k (visit_loop n es s) × IsClosed es k (visit_loop n es s)
  unfolding visit_loop
  visit_loop_lem zero s v w = (v, w)
  visit_loop_lem (suc n) s v w =
      let (v', w') = visit_next_lem s v w in visit_loop_lem n (visit_next es s) v' w'

  start-IsVisiting : IsVisiting es k (start_visit k)
  unfolding lookup
  start-IsVisiting = record {
    sound = λ x h. elim h [ ];
    stacked = λ x h. elim h [ inl same ↦ inl same | inr z ↦ elim z [ ] ];
    seen = λ x h. absurd (ground arith);
    pending = λ x h. elim h [ inl same ↦ inr (inl same) | inr z ↦ elim z [ ] ];
  }

  start-IsClosed : IsClosed es k (start_visit k)
  unfolding IsClosed lookup
  start-IsClosed x p h q = absurd (ground arith)

  -- Once the stack is empty, every ancestor is found.
  Ancestor-Known :
      (s : Visit)
      → IsVisiting es k s
      → IsClosed es k s
      → s.to_visit ≡ []
      → {a c : Txid} → Ancestor es a c
      → Known k s c
      → Known k s a
  unfolding IsClosed
  Ancestor-Known s v w h {a} {c} (parent q) found = elim (v.pending c found) [
    | inl t ↦ w c a t q
    | inr t ↦ elim (subst (Has c) h t) [ ]
  ]
  Ancestor-Known s v w h {a} {c} (further {b = b} q r) found =
      elim (v.pending b (Ancestor-Known s v w h r found)) [
        | inl t ↦ w b a t q
        | inr t ↦ elim (subst (Has b) h t) [ ]
      ]

-- An ancestor stands before its descendant.
Ancestor-lt :
    {es : Entries} → IsOrdered es → {a c : Txid} → Ancestor es a c → index a es < index c es
Ancestor-lt v {a} {c} (parent q) = v a c q
Ancestor-lt v {a} {c} (further {b = b} q r) = omega (arith, v a b q, Ancestor-lt v r)

-- On links without cycles `get_ancestors` answers exactly the transactions that the given one
-- depends on, directly or not, and never itself.
pub get_ancestors_iff :
    (es : Entries) (k : Txid)
    → IsOrdered es
    → ((x : Txid) → Has x (get_ancestors es k) ↔ Ancestor es x k) × (¬ Has k (get_ancestors es k))
unfolding get_ancestors
get_ancestors_iff es k order =
    let n = enough_rounds es in
    let (v, w) =
      visit_loop_lem es k n (start_visit k) (start-IsVisiting es k) (start-IsClosed es k) in
    let done = (get_ancestors-ends es k n (omega arith)).0 in
    let itself : ¬ Ancestor es k k = λ a. absurd (omega (arith, Ancestor-lt order a)) in
    (
      λ x. (
        v.sound x,
        λ a. elim (Ancestor-Known es k _ v w done a (inl refl)) [
          | inl same ↦ absurd (itself (subst (λ y. Ancestor es y k) (sym same) a))
          | inr found ↦ found
        ],
      ),
      λ h. itself (v.sound k h),
    )
