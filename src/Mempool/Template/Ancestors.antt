-- ===== src/Mempool/Template/Ancestors.antt =====
-- The loop of `get_ancestors` (src/mempool/txmempool.rs) ends, and finds the ancestors.
use btck_rust_node.Common.{
  ℕ, zero, suc, ◌+◌, ◌≡◌, ◌≤◌, ◌<◌, ◌⊎◌, refl, sym, ap, ◌∙◌, inl, inr, false, some, List, [], ◌∷◌,
  if◌then◌else◌, arith, nat_key, keys, lookup, contains, add, HashSet, length, total, lookup-insert,
  Option-cases, if-elim,
}
use btck_rust_node.Chain.{Txid}
use btck_rust_node.Mempool.Entry.{MempoolEntry}
use btck_rust_node.Mempool.Induction.{Entries}
use btck_rust_node.Mempool.Template.{
  Visit, push_parents, visit, visit_next, visit_loop, enough_rounds, start_visit, get_ancestors,
}

-- The links from the entries that are not visited.
unseen : HashSet Txid → Entries → ℕ
unseen visited =
    total (λ (p : Txid × MempoolEntry). if contains p.0 visited then 0 else length p.1.parents)

unseen_none :
    (es : Entries) → unseen [] es ≡ total (λ (p : Txid × MempoolEntry). length p.1.parents) es
unfolding unseen lookup
unseen_none [] = refl
unseen_none (e ∷ es) = ap (λ n. length e.1.parents + n) (unseen_none es)

unseen-add-le :
    (k : Txid) (visited : HashSet Txid) (es : Entries)
    → unseen (add k visited) es ≤ unseen visited es
unfolding unseen
unseen-add-le k visited [] = omega arith
unseen-add-le k visited (e ∷ es) =
    ground (arith, unseen-add-le k visited es, lookup-insert k e.0 tt visited)

unseen-add :
    (k : Txid) (e : MempoolEntry) (visited : HashSet Txid) (es : Entries)
    → contains k visited ≡ false
    → lookup k es ≡ some e
    → unseen (add k visited) es + length e.parents ≤ unseen visited es
unfolding unseen lookup
unseen-add k e visited [] n h = absurd (ground arith)
unseen-add k e visited (d ∷ es) n h =
    ground
      (arith, unseen-add k e visited es, unseen-add-le k visited es, lookup-insert k d.0 tt visited)

length-push_parents-le :
    (ps : List Txid) (s : Visit)
    → length (push_parents ps s).to_visit ≤ length s.to_visit + length ps
unfolding push_parents
length-push_parents-le [] s = omega arith
length-push_parents-le (p ∷ ps) s =
    if-elim
      (λ (r : Visit). length (push_parents ps r).to_visit ≤ length s.to_visit + length (p ∷ ps))
      (contains p s.visited) (λ t. omega (arith, length-push_parents-le ps s))
      (λ t. omega (arith, length-push_parents-le ps _))

pub List-cases : {A : Type 0} (xs : List A) → (xs ≡ []) ⊎ ((y : A) × (ys : List A) × (xs ≡ y ∷ ys))
List-cases [] = inl refl
List-cases (y ∷ ys) = inr (y, ys, refl)

pub length-keys : (s : HashSet Txid) → length (keys s) ≡ length s
length-keys [] = refl
length-keys (x ∷ s) = ap suc (length-keys s)

pub visited-push_parents : (ps : List Txid) (s : Visit) → (push_parents ps s).visited ≡ s.visited
unfolding push_parents
visited-push_parents [] s = refl
visited-push_parents (p ∷ ps) s =
    if-elim (λ (r : Visit). (push_parents ps r).visited ≡ s.visited) (contains p s.visited)
      (λ t. visited-push_parents ps s) (λ t. visited-push_parents ps _)

module _ (es : Entries) where
  -- The rounds that are left, at most.
  rounds : Visit → ℕ
  rounds s = length s.to_visit + unseen s.visited es

  visit-rounds :
      (k : Txid) (s : Visit) → contains k s.visited ≡ false → rounds (visit es k s) ≤ rounds s
  unfolding visit rounds
  visit-rounds k s n = elim (Option-cases (lookup k es)) [
    | inl a ↦ rw (a, visit) (omega (arith, unseen-add-le k s.visited es))
    | inr (e, a) ↦
        let s' : Visit = record s { visited = add k s.visited } in
        rw (a, visit, visited-push_parents (keys e.parents) s')
          (omega (
            arith,
            length-push_parents-le (keys e.parents) s',
            unseen-add k e s.visited es n a,
            length-keys e.parents,
          ))
  ]

  visit_next-rounds :
      (s : Visit) {k : Txid} {ks : List Txid}
      → s.to_visit ≡ k ∷ ks
      → rounds (visit_next es s) < rounds s
  unfolding visit_next rounds
  visit_next-rounds s {k} {ks} h =
      let popped : Visit = record s { to_visit = ks } in
      rw (h, visit_next)
        (if-elim (λ (r : Visit). rounds r < suc (length ks) + unseen s.visited es)
          (contains k s.visited) (λ t. omega arith) (λ t. omega (arith, visit-rounds k popped t)))

  pub visit_next_done : (s : Visit) → s.to_visit ≡ [] → visit_next es s ≡ s
  unfolding visit_next
  visit_next_done s h = rw (h, visit_next) (ap (λ (xs : List Txid). record s { to_visit = xs }) h)

  visit_loop_done : (n : ℕ) (s : Visit) → s.to_visit ≡ [] → visit_loop n es s ≡ s
  unfolding visit_loop
  visit_loop_done zero s h = refl
  visit_loop_done (suc n) s h = rw (visit_next_done s h) (visit_loop_done n s h)

  no_rounds-done : (s : Visit) → rounds s ≤ 0 → s.to_visit ≡ []
  unfolding rounds
  no_rounds-done s h = elim (List-cases s.to_visit) [
    | inl a ↦ a
    | inr (k, ks, a) ↦ absurd (ground (arith, ap (λ (xs : List Txid). length xs) a))
  ]

  -- With a round for each that may be left, the stack is empty in the end, and more rounds change
  -- nothing.
  visit_loop_enough :
      (n m : ℕ) (s : Visit)
      → rounds s ≤ n
      → n ≤ m
      → ((visit_loop n es s).to_visit ≡ []) × (visit_loop m es s ≡ visit_loop n es s)
  unfolding visit_loop
  visit_loop_enough zero m s h k = let done = no_rounds-done s h in (done, visit_loop_done m s done)
  visit_loop_enough (suc n) zero s h k = absurd (omega (arith, k))
  visit_loop_enough (suc n) (suc m) s h k = elim (List-cases s.to_visit) [
    | inl a ↦ (
      ap (λ (r : Visit). r.to_visit) (visit_loop_done (suc n) s a) ∙ a,
      visit_loop_done (suc m) s a ∙ sym (visit_loop_done (suc n) s a),
    )
    | inr (c, cs, a) ↦
        visit_loop_enough n m (visit_next es s) (omega (arith, visit_next-rounds s a, h))
          (omega (arith, k))
  ]

-- The loop of `get_ancestors` ends, whatever the links between the entries are: with a round for the
-- transaction and for each link the stack is empty, and with more rounds the answer is the same.
pub get_ancestors-ends :
    (es : Entries) (txid : Txid) (n : ℕ)
    → enough_rounds es ≤ n
    → ((visit_loop n es (start_visit txid)).to_visit ≡ [])
      × ((visit_loop n es (start_visit txid)).ancestors ≡ get_ancestors es txid)
unfolding enough_rounds get_ancestors rounds
get_ancestors-ends es txid n h =
    let (done, same) =
      visit_loop_enough es (enough_rounds es) n (start_visit txid) (omega (arith, unseen_none es))
        h in
    rw same (done, refl)
