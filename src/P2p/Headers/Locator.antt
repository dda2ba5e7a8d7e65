-- ===== src/P2p/Headers/Locator.antt =====
-- The block locator (src/p2p/legacy.rs).
use btck_rust_node.Common.{
  ℕ, zero, suc, ◌+◌, ◌-◌, ◌≤◌, ◌<◌, ◌≡◌, refl, sym, ap, ◌∙◌, true, Option, none, some, List, [],
  ◌∷◌, ◌++◌, length, get_elem?, ◌==◌, if◌then◌else◌, arith, Bool-cases, inl, inr, length-append,
  subst, none-some,
}
use btck_rust_node.Chain.{BlockHash}
use btck_rust_node.P2p.Headers.{PeerManager, last, locator_loop, close_locator, build_locator}
use btck_rust_node.P2p.Headers.Depths.{
  get_elem?_in, last-cons, Descends, Descends-snoc, locator_loop_lem, depth, step_at,
  locator_loop-depth, depth-zero, step_at-zero,
}

last-snoc : (xs : List BlockHash) (h : BlockHash) → last (xs ++ h ∷ []) ≡ some h
unfolding last
last-snoc [] h = refl
last-snoc (x ∷ xs) h = rw (last-snoc xs h, last) refl

get_elem?-last :
    (x : BlockHash) (xs : List BlockHash) (h : BlockHash)
    → get_elem? (x ∷ xs) (length xs) ≡ some h
    → last (x ∷ xs) ≡ some h
unfolding last
get_elem?-last x [] h e = e
get_elem?-last x (y ∷ xs) h e = rw (get_elem?-last y xs h e, last) refl

close_locator-eq :
    (g : BlockHash) (chain loc : List BlockHash) (t : BlockHash)
    → last loc ≡ some t
    → close_locator (g ∷ chain) loc ≡ some (if t == g then loc else loc ++ g ∷ [])
unfolding close_locator
close_locator-eq g chain loc t e = rw (e, close_locator) refl

get_elem?-snoc :
    (xs : List BlockHash) (i : ℕ) (h g : BlockHash)
    → get_elem? xs i ≡ some h
    → get_elem? (xs ++ g ∷ []) i ≡ some h
get_elem?-snoc [] i h g e = absurd (none-some refl e)
get_elem?-snoc (x ∷ xs) zero h g e = e
get_elem?-snoc (x ∷ xs) (suc i) h g e = get_elem?-snoc xs i h g e

-- A locator: from the tip to genesis, each hash strictly deeper in the chain than the one before, as
-- deep as `depth` says where the chain reaches so far, and in at most 33 hashes.
pub record IsLocator (chain loc : List BlockHash) : Type 0 where
  pub starts : get_elem? loc 0 ≡ last chain
  pub ends : last loc ≡ get_elem? chain 0
  pub short : length loc ≤ 33
  pub descends : Descends chain (length chain) loc
  pub deepens :
      (i : ℕ)
      → i < 32
      → depth i < length chain
      → get_elem? loc i ≡ get_elem? chain (length chain - 1 - depth i)

==→≡ : (a b : ℕ) → (a == b) ≡ true → a ≡ b
==→≡ a b e = ground arith

-- The places of a locator at their depths, of a chain with genesis and what follows it.
abbrev Deepens : BlockHash → List BlockHash → List BlockHash → Type 0
Deepens g chain loc =
    (i : ℕ)
    → i < 32
    → depth i < length (g ∷ chain)
    → get_elem? loc i ≡ get_elem? (g ∷ chain) (length (g ∷ chain) - 1 - depth i)

Deepens-snoc :
    (g : BlockHash) (chain loc : List BlockHash)
    → Deepens g chain loc
    → Deepens g chain (loc ++ g ∷ [])
Deepens-snoc g chain loc v i few b =
    let at = get_elem?_in (g ∷ chain) (length (g ∷ chain) - 1 - depth i) (omega arith) in
    get_elem?-snoc loc i at.0 g (v i few b ∙ at.1) ∙ sym at.1

locator_loop-Deepens :
    (g : BlockHash) (chain loc : List BlockHash)
    → locator_loop 32 (g ∷ chain) (length (g ∷ chain) - 1) 1 0 ≡ some loc
    → Deepens g chain loc
locator_loop-Deepens g chain loc e i few b =
    let tip = length (g ∷ chain) - 1 in
    let start : tip - depth 0 ≡ tip = omega (arith, depth-zero) in
    let first : locator_loop 32 (g ∷ chain) (tip - depth 0) (step_at 0) 0 ≡ some loc =
      ap (λ k. locator_loop 32 (g ∷ chain) k (step_at 0) 0) start
      ∙ ap (λ k. locator_loop 32 (g ∷ chain) tip k 0) step_at-zero
      ∙ e in
    let whole : 0 + i ≡ i = omega arith in
    let d : depth (0 + i) ≤ tip = rw whole (omega (arith, b)) in
    locator_loop-depth 32 (g ∷ chain) tip 0 i loc (omega arith) few d first
    ∙ ap (λ k. get_elem? (g ∷ chain) (tip - depth k)) whole

close_locator-IsLocator :
    (g : BlockHash) (chain : List BlockHash) (h : BlockHash) (hs : List BlockHash)
    → get_elem? (g ∷ chain) (length chain) ≡ some h
    → length (h ∷ hs) ≤ 32
    → Descends (g ∷ chain) (length chain) hs
    → Deepens g chain (h ∷ hs)
    → (loc : List BlockHash) × (close_locator (g ∷ chain) (h ∷ hs) ≡ some loc)
      × IsLocator (g ∷ chain) loc
close_locator-IsLocator g chain h hs e b v deep =
    let t = last-cons h hs in
    let closed = close_locator-eq g chain (h ∷ hs) t.0 t.1 in
    let from : Descends (g ∷ chain) (length (g ∷ chain)) (h ∷ hs) =
      (length chain, omega arith, e, v) in
    elim (Bool-cases (t.0 == g)) [
      | inl a ↦ (
        h ∷ hs,
        closed ∙ ap (λ c. some (if c then h ∷ hs else h ∷ hs ++ g ∷ [])) a,
        record {
          starts = sym (get_elem?-last g chain h e);
          ends = t.1 ∙ ap some (==→≡ t.0 g a);
          short = omega arith;
          descends = from;
          deepens = deep;
        },
      )
      | inr a ↦ (
        h ∷ hs ++ g ∷ [],
        closed ∙ ap (λ c. some (if c then h ∷ hs else h ∷ hs ++ g ∷ [])) a,
        record {
          starts = sym (get_elem?-last g chain h e);
          ends = last-snoc (h ∷ hs) g;
          short = omega (arith, length-append hs (g ∷ []));
          descends = Descends-snoc g chain (length (g ∷ chain)) h hs t.0 t.1 a from;
          deepens = Deepens-snoc g chain (h ∷ hs) deep;
        },
      )
    ]

abbrev locate : List BlockHash → Option (List BlockHash)
locate chain = elim (locator_loop 32 chain (length chain - 1) 1 0) [
  | none ↦ none
  | some loc ↦ close_locator chain loc
]

locate-IsLocator :
    (chain : List BlockHash)
    → 0 < length chain
    → (loc : List BlockHash) × (locate chain ≡ some loc) × IsLocator chain loc
locate-IsLocator [] b = absurd (omega arith)
locate-IsLocator (g ∷ chain) b =
    let at =
      locator_loop_lem 31 (g ∷ chain) (length (g ∷ chain) - 1) 1 0 (omega arith) (omega arith) in
    let tip : length (g ∷ chain) - 1 ≡ length chain = omega arith in
    let closed =
      close_locator-IsLocator g chain at.0 at.1 (ap (get_elem? (g ∷ chain)) (sym tip) ∙ at.3) at.4
        (subst (λ i. Descends (g ∷ chain) i at.1) tip at.5)
        (locator_loop-Deepens g chain (at.0 ∷ at.1) at.2) in
    (
      closed.0,
      ap
            (λ (o : Option (List BlockHash)). elim o [
              | none ↦ none
              | some loc ↦ close_locator (g ∷ chain) loc
            ])
            at.2
          ∙ closed.1,
      closed.2,
    )

-- On a chain that is not empty, `build_locator` does not panic. Its locator starts at the tip and ends
-- at the first hash of the chain; each hash stands strictly deeper in the chain than the one before;
-- as far as the chain reaches, the first ten stand in a row and each later step is twice the one
-- before (the hash at place i, from ten on, stands 2^(i - 8) + 7 below the tip); and there are at most
-- 33.
pub build_locator-IsLocator :
    (m : PeerManager)
    → 0 < length m.recent_chain
    → (loc : List BlockHash) × (build_locator m ≡ some loc) × IsLocator m.recent_chain loc
unfolding build_locator
build_locator-IsLocator m b = locate-IsLocator m.recent_chain b
