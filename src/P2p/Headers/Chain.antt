-- ===== src/P2p/Headers/Chain.antt =====
-- The chain of headers (src/p2p/legacy.rs): what `extend_headers` keeps of it.
use mathlib.Core.List.{append_assoc, append-nil}
use btck_rust_node.Common.{
  ℕ, suc, ◌+◌, ◌≤◌, ◌^◌, ◌%◌, ◌<◌, ◌≡◌, refl, sym, ap, ◌∙◌, subst, true, false, ◌||◌, Option, none,
  some, List, [], ◌∷◌, ◌++◌, length, get_elem?, All, ◌==◌, arith, nat_key, lookup, contains,
  Bool-cases, Option-cases, inl, inr, some-eq, none-some, length-append,
}
use btck_rust_node.Common.Int.{ℤ, pos, add_pos}
use btck_rust_node.Common.Words.{add64, as_i32, as_u32, add_i32, i32_mod, u64_mod}
use btck_rust_node.Chain.{BlockHash}
use btck_rust_node.P2p.Headers.{
  BlockHeader, PeerManager, with_start_height, fresh, load, last, push_header, passes_checkpoint,
  extend_loop, set_tip, extend_headers,
}
use btck_rust_node.P2p.Headers.Tree.{
  is_in, hashes_of, is_in-snoc, hashes_of-snoc, length-hashes_of, get_elem?-snoc, last-is_in,
  contains-add, IsTree, IsTree-snoc,
}

-- The hashes kept are those of genesis and of the stored headers, in their order, and exactly these
-- are known; the height counts the headers; each header's parent stands somewhere before it, and no
-- hash stands twice; and no header differs from a checkpoint at its height.
pub record IsChain (g : BlockHash) (m : PeerManager) : Type 0 where
  pub hashes : m.recent_chain ≡ g ∷ hashes_of m.header_chain
  pub height : m.header_chain_height ≡ as_i32 (length m.header_chain)
  pub known : (h : BlockHash) → contains h m.have_header ≡ is_in h m.recent_chain
  pub tree : IsTree (g ∷ []) m.header_chain
  pub checked :
      (i : ℕ) (h c : BlockHash)
      → get_elem? (hashes_of m.header_chain) i ≡ some h
      → m.checkpoint (i + 1) ≡ some c
      → h ≡ c

as_i32_small : (n : ℕ) → n < 2 ^ 31 → as_i32 n ≡ pos n
as_i32_small n b = ground arith

-- The height after a chain of `n` headers, below 2^31.
next_height : (n : ℕ) → n + 1 < 2 ^ 31 → add_i32 (as_i32 n) (pos 1) ≡ pos (n + 1)
next_height n b =
    ap (λ z. add_i32 z (pos 1)) (as_i32_small n (omega arith))
    ∙ ap (λ z. as_i32 (as_u32 z)) (add_pos n 1)
    ∙ next_mod
  where
    next_mod : as_i32 ((n + 1) % i32_mod) ≡ pos (n + 1)
    next_mod = ground arith

passes_checkpoint-eq :
    (h k : BlockHash) (m : PeerManager)
    → passes_checkpoint h m ≡ true
    → m.checkpoint (as_u32 (add_i32 m.header_chain_height (pos 1))) ≡ some k
    → h ≡ k
unfolding passes_checkpoint
passes_checkpoint-eq h k m e f =
    go (m.checkpoint (as_u32 (add_i32 m.header_chain_height (pos 1)))) f e
  where
    go :
        (o : Option BlockHash)
        → o ≡ some k
        → elim o [ none ↦ true | some c ↦ h == c ] ≡ true
        → h ≡ k
    go none p q = absurd (none-some refl p)
    go (some c) p q = ground (arith, some-eq p)

push_header-IsChain :
    (g : BlockHash) (hh : BlockHeader) (m : PeerManager)
    → IsChain g m
    → length m.header_chain + 1 < 2 ^ 31
    → contains hh.prev_blockhash m.have_header ≡ true
    → contains hh.block_hash m.have_header ≡ false
    → passes_checkpoint hh.block_hash m ≡ true
    → IsChain g (push_header hh m)
unfolding push_header
push_header-IsChain g hh m v b p n c = record {
  hashes =
      ap (λ xs. xs ++ hh.block_hash ∷ []) v.hashes
      ∙ sym (ap (◌∷◌ g) (hashes_of-snoc hh m.header_chain));
  height =
      ap (λ h. add_i32 h (pos 1)) v.height
      ∙ next_height (length m.header_chain) b
      ∙ sym (as_i32_small (length m.header_chain + 1) b)
      ∙ ap as_i32 (sym (length-append m.header_chain (hh ∷ [])));
  known = λ h.
      contains-add h hh.block_hash m.have_header
      ∙ ap (λ t. t || (hh.block_hash == h)) (v.known h)
      ∙ sym (is_in-snoc h hh.block_hash m.recent_chain);
  tree =
      IsTree-snoc (g ∷ []) m.header_chain hh v.tree
        (ap (is_in hh.prev_blockhash) (sym v.hashes) ∙ sym (v.known hh.prev_blockhash) ∙ p)
        (ap (is_in hh.block_hash) (sym v.hashes) ∙ sym (v.known hh.block_hash) ∙ n);
  checked = λ i h k e f.
      elim (get_elem?-snoc i h hh.block_hash (hashes_of m.header_chain)
        (sym (ap (λ xs. get_elem? xs i) (hashes_of-snoc hh m.header_chain)) ∙ e)) [
          | inl q ↦
              sym q.1
              ∙ passes_checkpoint-eq hh.block_hash k m c (
                  ap m.checkpoint (
                    ap as_u32
                      (ap (λ t. add_i32 t (pos 1)) v.height ∙ next_height (length m.header_chain) b)
                    ∙ omega (arith, q.0, length-hashes_of m.header_chain))
                  ∙ f)
          | inr q ↦ v.checked i h k q f
        ];
}

new_known :
    (hh : BlockHeader) (m : PeerManager)
    → contains hh.block_hash (push_header hh m).have_header ≡ true
unfolding push_header
new_known hh m = ground (arith, contains-add hh.block_hash hh.block_hash m.have_header)

length-push_header :
    (hh : BlockHeader) (m : PeerManager)
    → length (push_header hh m).header_chain ≡ length m.header_chain + 1
unfolding push_header
length-push_header hh m = length-append m.header_chain (hh ∷ [])

==→≡ : (a b : ℕ) → (a == b) ≡ true → a ≡ b
==→≡ a b e = ground arith

extend_loop-IsChain :
    (g tip : BlockHash) (hs : List BlockHeader) (added : ℕ) (m : PeerManager)
    → IsChain g m
    → length m.header_chain + length hs < 2 ^ 31
    → contains tip m.have_header ≡ true
    → IsChain g (extend_loop hs tip added m).0
unfolding extend_loop
extend_loop-IsChain g tip [] added m v b k = v
extend_loop-IsChain g tip (hh ∷ hs) added m v b k =
    elim (Bool-cases (contains hh.block_hash m.have_header)) [
      | inl a ↦
          rw (a, extend_loop) (extend_loop-IsChain g hh.block_hash hs added m v (omega arith) a)
      | inr a ↦ elim (Bool-cases (hh.prev_blockhash == tip)) [
        | inr p ↦ rw (a, p, extend_loop) v
        | inl p ↦ elim (Bool-cases (passes_checkpoint hh.block_hash m)) [
          | inr c ↦ rw (a, p, c, extend_loop) v
          | inl c ↦
              rw (a, p, c, extend_loop)
                (extend_loop-IsChain g hh.block_hash hs (add64 added 1) (push_header hh m)
                  (push_header-IsChain g hh m v (omega arith) (known_parent p) a c)
                  (omega (arith, length-push_header hh m)) (new_known hh m))
        ]
      ]
    ]
  where
    known_parent :
        (hh.prev_blockhash == tip) ≡ true → contains hh.prev_blockhash m.have_header ≡ true
    known_parent p = subst (λ t. contains t m.have_header ≡ true) (sym (==→≡ _ _ p)) k

-- The header stands in the batch, and its parent right before it, at first the tip.
abbrev pub Follows : BlockHash → List BlockHeader → BlockHeader → Type 0
Follows tip hs x =
    (i : ℕ) × (get_elem? hs i ≡ some x) × (get_elem? (tip ∷ hashes_of hs) i ≡ some x.prev_blockhash)

Follows-cons :
    (tip : BlockHash) (hh : BlockHeader) (hs new : List BlockHeader)
    → All (Follows hh.block_hash hs) new
    → All (Follows tip (hh ∷ hs)) new
unfolding hashes_of
Follows-cons tip hh hs [] v = tt
Follows-cons tip hh hs (x ∷ new) v = ((suc v.0.0, v.0.1, v.0.2), Follows-cons tip hh hs new v.1)

-- Headers are only appended, each after its parent, and the count says how many.
extend_loop-append :
    (tip : BlockHash) (hs : List BlockHeader) (added : ℕ) (m : PeerManager)
    → added + length hs < u64_mod
    → (new : List BlockHeader) × ((extend_loop hs tip added m).0.header_chain
        ≡ m.header_chain ++ new)
      × ((extend_loop hs tip added m).1 ≡ added + length new)
      × All (Follows tip hs) new
unfolding extend_loop push_header
extend_loop-append tip [] added m b = ([], sym (append-nil m.header_chain), omega arith, tt)
extend_loop-append tip (hh ∷ hs) added m b =
    elim (Bool-cases (contains hh.block_hash m.have_header)) [
      | inl a ↦
          let rest = extend_loop-append hh.block_hash hs added m (omega arith) in
          rw (a, extend_loop) (rest.0, rest.1, rest.2, Follows-cons tip hh hs rest.0 rest.3)
      | inr a ↦ elim (Bool-cases (hh.prev_blockhash == tip)) [
        | inr p ↦ rw (a, p, extend_loop) ([], sym (append-nil m.header_chain), omega arith, tt)
        | inl p ↦ elim (Bool-cases (passes_checkpoint hh.block_hash m)) [
          | inr c ↦ rw (a, p, c, extend_loop) ([], sym (append-nil m.header_chain), omega arith, tt)
          | inl c ↦
              let rest =
                extend_loop-append hh.block_hash hs (add64 added 1) (push_header hh m)
                  (omega arith) in
              rw (a, p, c, extend_loop)
                (
                  hh ∷ rest.0,
                  rest.1 ∙ append_assoc m.header_chain (hh ∷ []) rest.0,
                  rest.2 ∙ omega arith,
                  ((0, refl, ap some (sym (==→≡ _ _ p))), Follows-cons tip hh hs rest.0 rest.3),
                )
        ]
      ]
    ]

extend_loop-le :
    (tip : BlockHash) (hs : List BlockHeader) (added : ℕ) (m : PeerManager)
    → (extend_loop hs tip added m).1 ≤ added + length hs
unfolding extend_loop
extend_loop-le tip [] added m = omega arith
extend_loop-le tip (hh ∷ hs) added m = ground (
  arith,
  extend_loop-le hh.block_hash hs added m,
  extend_loop-le hh.block_hash hs (add64 added 1) (push_header hh m),
)

set_tip-IsChain : (g : BlockHash) (m : PeerManager) → IsChain g m → IsChain g (set_tip m)
unfolding set_tip
set_tip-IsChain g m v = elim (Option-cases (last m.recent_chain)) [
  | inl a ↦ rw (a, set_tip) v
  | inr (t, a) ↦
      rw (a, set_tip)
        (record {
          hashes = v.hashes;
          height = v.height;
          known = v.known;
          tree = v.tree;
          checked = v.checked;
        })
]

set_tip-header_chain : (m : PeerManager) → (set_tip m).header_chain ≡ m.header_chain
unfolding set_tip
set_tip-header_chain m = elim (Option-cases (last m.recent_chain)) [
  | inl a ↦ rw (a, set_tip) refl
  | inr (t, a) ↦ rw (a, set_tip) refl
]

last-cons : (h : BlockHash) (xs : List BlockHash) → (t : BlockHash) × (last (h ∷ xs) ≡ some t)
unfolding last
last-cons h xs = elim (Option-cases (last xs)) [
  | inl a ↦ rw (a, last) (h, refl)
  | inr (l, a) ↦ rw (a, last) (l, refl)
]

-- If IsChain holds, `extend_headers` does not panic, whatever a peer sends, and IsChain holds again:
-- the hashes kept are those of genesis and of the stored headers, each header's parent stands
-- somewhere before it, no hash stands twice, and no header differs from a checkpoint at its height.
-- It appends headers only, as many as it returns and no more than it got; each of them stands in the
-- batch directly after its parent, which before the batch's first header is the tip. The chain and
-- the batch together have less than 2^31 headers.
pub extend_headers-IsChain :
    (g : BlockHash) (hs : List BlockHeader) (m : PeerManager)
    → IsChain g m
    → length m.header_chain + length hs < 2 ^ 31
    → (m' : PeerManager) × (new : List BlockHeader) × (extend_headers hs m ≡ some (m', length new))
      × IsChain g m'
      × (m'.header_chain ≡ m.header_chain ++ new)
      × (length new ≤ length hs)
      × ((tip : BlockHash) × (last m.recent_chain ≡ some tip) × All (Follows tip hs) new)
unfolding extend_headers
extend_headers-IsChain g [] m v b =
    let tip = last-cons g (hashes_of m.header_chain) in
    (
      m,
      [],
      refl,
      v,
      sym (append-nil m.header_chain),
      omega arith,
      (tip.0, ap last v.hashes ∙ tip.1, tt),
    )
extend_headers-IsChain g (hh ∷ hs) m v b =
    let tip = last-cons g (hashes_of m.header_chain) in
    let e : last m.recent_chain ≡ some tip.0 = ap last v.hashes ∙ tip.1 in
    let grown = extend_loop-append tip.0 (hh ∷ hs) 0 m (omega arith) in
    let grow : PeerManager × ℕ = extend_loop (hh ∷ hs) tip.0 0 m in
    rw (e, extend_headers)
      (
        set_tip grow.0,
        grown.0,
        ap (λ n. some (set_tip grow.0, n)) (grown.2 ∙ omega arith),
        set_tip-IsChain g grow.0 (
            extend_loop-IsChain g tip.0 (hh ∷ hs) 0 m v b
              (v.known tip.0 ∙ last-is_in m.recent_chain tip.0 e)),
        set_tip-header_chain grow.0 ∙ grown.1,
        omega (arith, grown.2, extend_loop-le tip.0 (hh ∷ hs) 0 m),
        (tip.0, refl, grown.3),
      )

contains_one : (h g : BlockHash) → contains h [] || (g == h) ≡ is_in h (g ∷ [])
unfolding lookup is_in
contains_one h g = ground arith

-- IsChain holds of a node that starts without headers on disk.
pub with_start_height-IsChain :
    (g : BlockHash) (cp : ℕ → Option BlockHash) (start_height : ℤ)
    → IsChain g (with_start_height g cp [] start_height)
unfolding with_start_height fresh load hashes_of is_in
with_start_height-IsChain g cp start_height = record {
  hashes = refl;
  height = refl;
  known = λ h. contains-add h g [] ∙ contains_one h g;
  tree = tt;
  checked = λ i h c e f. absurd (none-some refl e);
}
