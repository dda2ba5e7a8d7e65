-- ===== src/Mempool/Template/Reach.antt =====
-- What the loop of `get_ancestors` (src/mempool/txmempool.rs) keeps: the invariant, and a visit.
use btck_rust_node.Common.{
  ◌≡◌, ◌⊎◌, refl, sym, ◌∙◌, subst, inl, inr, true, List, [], ◌∷◌, ◌++◌, arith, nat_key, keys,
  lookup, contains, add, HashSet, Bool-cases, Option-cases, Has, Has-append, append-Has_left,
  append-Has_right, lookup_of_Has-keys, Has-keys,
}
use btck_rust_node.Chain.{Txid}
use btck_rust_node.Mempool.Induction.{Entries}
use btck_rust_node.Mempool.Flags.{flag, has_parent, flag-some, flag-none}
use btck_rust_node.Mempool.Template.{Visit, push_parents, visit}

-- A transaction is a parent of another, or a parent of an ancestor of it.
pub data Ancestor (es : Entries) : Txid → Txid → Type 0 where
  parent : {a c : Txid} → flag (has_parent a) c es ≡ true → Ancestor es a c
  further : {a b c : Txid} → flag (has_parent a) b es ≡ true → Ancestor es b c → Ancestor es a c

-- The transaction itself, or one that was found.
abbrev pub Known : Txid → Visit → Txid → Type 0
Known k s x = (k ≡ x) ⊎ Has x s.ancestors

module _ (es : Entries) (k : Txid) where
  -- What the loop has found, at any time.
  pub record IsVisiting (s : Visit) : Type 0 where
    pub sound : (x : Txid) → Has x s.ancestors → Ancestor es x k
    pub stacked : (x : Txid) → Has x s.to_visit → Known k s x
    pub seen : (x : Txid) → contains x s.visited ≡ true → Known k s x
    pub pending : (x : Txid) → Known k s x → (contains x s.visited ≡ true) ⊎ Has x s.to_visit

  -- The parents of what was visited are found.
  unfoldable pub IsClosed : Visit → Type 0
  IsClosed s =
      (x p : Txid) → contains x s.visited ≡ true → flag (has_parent p) x es ≡ true → Known k s p

  push_one-IsVisiting :
      (p : Txid) (s : Visit)
      → IsVisiting s
      → Ancestor es p k
      → IsVisiting (record s { to_visit = p ∷ s.to_visit; ancestors = s.ancestors ++ p ∷ [] })
  push_one-IsVisiting p s v a = record {
    sound = λ x h. elim (Has-append x s.ancestors (p ∷ []) h) [
      | inl old ↦ v.sound x old
      | inr (inl same) ↦ subst (λ y. Ancestor es y k) same a
      | inr (inr z) ↦ elim z [ ]
    ];
    stacked = λ x h. elim h [
      | inl same ↦ inr (append-Has_right x s.ancestors (p ∷ []) (inl same))
      | inr old ↦ grow x (v.stacked x old)
    ];
    seen = λ x h. grow x (v.seen x h);
    pending = λ x h. elim h [
      | inl same ↦ elim (v.pending x (inl same)) [ inl q ↦ inl q | inr q ↦ inr (inr q) ]
      | inr found ↦ elim (Has-append x s.ancestors (p ∷ []) found) [
        | inl old ↦ elim (v.pending x (inr old)) [ inl q ↦ inl q | inr q ↦ inr (inr q) ]
        | inr (inl same) ↦ inr (inl same)
        | inr (inr z) ↦ elim z [ ]
      ]
    ];
  }
    where
      grow : (x : Txid) → Known k s x → (k ≡ x) ⊎ Has x (s.ancestors ++ p ∷ [])
      grow x (inl same) = inl same
      grow x (inr old) = inr (append-Has_left x s.ancestors (p ∷ []) old)

  push_parents-IsVisiting :
      (ps : List Txid) (s : Visit)
      → IsVisiting s
      → ((p : Txid) → Has p ps → Ancestor es p k)
      → IsVisiting (push_parents ps s)
        × ((x : Txid) → Known k s x → Known k (push_parents ps s) x)
        × ((p : Txid) → Has p ps → Known k (push_parents ps s) p)
  unfolding push_parents
  push_parents-IsVisiting [] s v h = (v, (λ x q. q), λ p q. elim q [ ])
  push_parents-IsVisiting (p ∷ ps) s v h = elim (Bool-cases (contains p s.visited)) [
    | inl t ↦
        let (w, more, all) = push_parents-IsVisiting ps s v (λ x q. h x (inr q)) in
        rw (t, push_parents)
          (
            w,
            more,
            λ x q. elim q [
              | inl same ↦ subst (Known k (push_parents ps s)) same (more p (v.seen p t))
              | inr q' ↦ all x q'
            ],
          )
    | inr t ↦
        let s1 : Visit = record s {
          to_visit = p ∷ s.to_visit;
          ancestors = s.ancestors ++ p ∷ [];
        } in
        let (w, more, all) =
          push_parents-IsVisiting ps s1 (push_one-IsVisiting p s v (h p (inl refl)))
            (λ x q. h x (inr q)) in
        rw (t, push_parents)
          (
            w,
            (λ x q. elim q [
              | inl same ↦ more x (inl same)
              | inr old ↦ more x (inr (append-Has_left x s.ancestors (p ∷ []) old))
            ]),
            λ x q. elim q [
              | inl same ↦ more x (inr (append-Has_right x s.ancestors (p ∷ []) (inl same)))
              | inr q' ↦ all x q'
            ],
          )
  ]

  pub visit-IsVisiting :
      (c : Txid) (s : Visit)
      → IsVisiting (record s { visited = add c s.visited })
      → Known k s c
      → IsVisiting (visit es c s)
        × ((x : Txid) → Known k s x → Known k (visit es c s) x)
        × ((p : Txid) → flag (has_parent p) c es ≡ true → Known k (visit es c s) p)
  unfolding visit
  visit-IsVisiting c s v found = elim (Option-cases (lookup c es)) [
    | inl a ↦
        rw (a, visit)
          (v, (λ x q. q), λ p q. absurd (ground (arith, flag-none (has_parent p) c es a)))
    | inr (e, a) ↦
        let s1 : Visit = record s { visited = add c s.visited } in
        let link : (p : Txid) → flag (has_parent p) c es ≡ has_parent p e =
          λ p. flag-some (has_parent p) c e es a in
        let (w, more, all) =
          push_parents-IsVisiting (keys e.parents) s1 v
            (λ p q. extend c p found (link p ∙ listed p e.parents q)) in
        rw (a, visit) (w, more, λ p q. all p (Has-keys p e.parents (sym (link p) ∙ q)))
  ]
    where
      extend : (c p : Txid) → Known k s c → flag (has_parent p) c es ≡ true → Ancestor es p k
      extend c p (inl same) q = parent (subst (λ y. flag (has_parent p) y es ≡ true) (sym same) q)
      extend c p (inr old) q = further q (v.sound c old)

      listed : (p : Txid) (ps : HashSet Txid) → Has p (keys ps) → contains p ps ≡ true
      listed p ps q = let (u, there) = lookup_of_Has-keys p ps q in ground (arith, there)
