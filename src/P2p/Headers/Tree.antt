-- ===== src/P2p/Headers/Tree.antt =====
-- The hashes of the headers of src/p2p/legacy.rs, and the tree that parents make of them.
use mathlib.Core.List.{append_assoc, append-nil}
use btck_rust_node.Common.{
  ℕ, zero, suc, ◌≡◌, refl, sym, ap, subst, Bool, true, false, ◌||◌, Option, none, some, List, [],
  ◌∷◌, ◌++◌, length, get_elem?, any, ◌==◌, arith, nat_key, lookup-insert, HashSet, contains, add,
  Option-cases, inl, inr, some-eq, none-some, ◌⊎◌,
}
use btck_rust_node.Chain.{BlockHash}
use btck_rust_node.P2p.Headers.{BlockHeader, last}

-- Whether a hash stands in a list.
unfoldable pub is_in : BlockHash → List BlockHash → Bool
is_in h xs = any (λ x. x == h) xs

unfoldable pub hashes_of : List BlockHeader → List BlockHash
hashes_of [] = []
hashes_of (x ∷ xs) = x.block_hash ∷ hashes_of xs

pub is_in-snoc :
    (h k : BlockHash) (xs : List BlockHash) → is_in h (xs ++ k ∷ []) ≡ is_in h xs || (k == h)
unfolding is_in
is_in-snoc h k [] = ground arith
is_in-snoc h k (x ∷ xs) = ground (arith, is_in-snoc h k xs)

pub hashes_of-snoc :
    (x : BlockHeader) (xs : List BlockHeader)
    → hashes_of (xs ++ x ∷ []) ≡ hashes_of xs ++ x.block_hash ∷ []
unfolding hashes_of
hashes_of-snoc x [] = refl
hashes_of-snoc x (y ∷ xs) = ap (◌∷◌ y.block_hash) (hashes_of-snoc x xs)

pub length-hashes_of : (xs : List BlockHeader) → length (hashes_of xs) ≡ length xs
unfolding hashes_of
length-hashes_of [] = refl
length-hashes_of (x ∷ xs) = ap suc (length-hashes_of xs)

pub get_elem?-snoc :
    (i : ℕ) (h k : BlockHash) (xs : List BlockHash)
    → get_elem? (xs ++ k ∷ []) i ≡ some h
    → ((i ≡ length xs) × (k ≡ h)) ⊎ (get_elem? xs i ≡ some h)
get_elem?-snoc zero h k [] e = inl (refl, some-eq e)
get_elem?-snoc (suc i) h k [] e = absurd (none-some refl e)
get_elem?-snoc zero h k (x ∷ xs) e = inr e
get_elem?-snoc (suc i) h k (x ∷ xs) e = elim (get_elem?-snoc i h k xs e) [
  | inl p ↦ inl (ap suc p.0, p.1)
  | inr p ↦ inr p
]

pub last-is_in : (xs : List BlockHash) (t : BlockHash) → last xs ≡ some t → is_in t xs ≡ true
unfolding last is_in
last-is_in [] t e = absurd (none-some refl e)
last-is_in (x ∷ xs) t e = elim (Option-cases (last xs)) [
  | inl a ↦ ground (arith, some-eq (e' (last xs) a e))
  | inr (l, a) ↦ ground (arith, last-is_in xs t, e)
]
  where
    e' :
        (o : Option BlockHash)
        → o ≡ none
        → elim o [ none ↦ some x | some l ↦ some l ] ≡ some t
        → some x ≡ some t
    e' none p q = q
    e' (some l) p q = absurd (none-some p refl)

pub contains-add :
    (h k : BlockHash) (s : HashSet BlockHash) → contains h (add k s) ≡ contains h s || (k == h)
contains-add h k s = ground (arith, lookup-insert k h tt s)

contains-add_mono :
    (h k : BlockHash) (s : HashSet BlockHash) → contains h s ≡ true → contains h (add k s) ≡ true
contains-add_mono h k s e = ground (arith, contains-add h k s)

-- Each header has its parent among the hashes before it, and its own hash is new there.
abbrev pub IsTree : List BlockHash → List BlockHeader → Type 0
IsTree before [] = Unit
IsTree before (x ∷ xs) =
    (is_in x.prev_blockhash before ≡ true)
    × (is_in x.block_hash before ≡ false)
    × IsTree (before ++ x.block_hash ∷ []) xs

pub IsTree-snoc :
    (before : List BlockHash) (xs : List BlockHeader) (x : BlockHeader)
    → IsTree before xs
    → is_in x.prev_blockhash (before ++ hashes_of xs) ≡ true
    → is_in x.block_hash (before ++ hashes_of xs) ≡ false
    → IsTree before (xs ++ x ∷ [])
unfolding hashes_of
IsTree-snoc before [] x v p n =
    let e : before ++ [] ≡ before = append-nil before in
    (
      subst (λ hs. is_in x.prev_blockhash hs ≡ true) e p,
      subst (λ hs. is_in x.block_hash hs ≡ false) e n,
      tt,
    )
IsTree-snoc before (y ∷ xs) x v p n =
    let e = sym (append_assoc before (y.block_hash ∷ []) (hashes_of xs)) in
    (
      v.0,
      v.1,
      IsTree-snoc (before ++ y.block_hash ∷ []) xs x v.2
          (subst (λ hs. is_in x.prev_blockhash hs ≡ true) e p)
          (subst (λ hs. is_in x.block_hash hs ≡ false) e n),
    )
