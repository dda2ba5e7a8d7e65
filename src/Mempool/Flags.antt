-- ===== src/Mempool/Flags.antt =====
-- Tests on the entries of the pool (src/mempool/txmempool.rs), through what changes the entries.
use btck_rust_node.Common.{
  ◌≡◌, refl, ◌∙◌, Bool, false, not, ◌&&◌, ◌||◌, none, some, List, [], ◌∷◌, any, ◌==◌, if◌then◌else◌,
  arith, nat_key, keys, lookup, insert, remove, adjust, adjust_all, contains, contains_key, add,
  HashSet, lookup-insert, lookup-remove, lookup-adjust, Option-cases, inl, inr,
}
use btck_rust_node.Chain.{Txid}
use btck_rust_node.Mempool.Entry.{MempoolEntry}

-- A test on the entry at a key.
unfoldable pub flag : (MempoolEntry → Bool) → Txid → List (Txid × MempoolEntry) → Bool
flag g k es = elim (lookup k es) [ none ↦ false | some e ↦ g e ]

abbrev pub has_parent : Txid → MempoolEntry → Bool
has_parent p e = contains p e.parents

abbrev pub has_child : Txid → MempoolEntry → Bool
has_child c e = contains c e.children

pub flag-remove :
    (g : MempoolEntry → Bool) (k c : Txid) (es : List (Txid × MempoolEntry))
    → flag g c (remove k es) ≡ flag g c es && not (k == c)
unfolding flag
flag-remove g k c es = ground (arith, lookup-remove k c es)

pub flag-insert :
    (g : MempoolEntry → Bool) (k c : Txid) (e : MempoolEntry) (es : List (Txid × MempoolEntry))
    → flag g c (insert k e es) ≡ (if k == c then g e else flag g c es)
unfolding flag
flag-insert g k c e es = ground (arith, lookup-insert k c e es)

pub is_one : Txid → List Txid → Bool
is_one c ks = any (λ k. k == c) ks

pub is_one-keys : (c : Txid) (s : HashSet Txid) → is_one c (keys s) ≡ contains c s
unfolding is_one lookup
is_one-keys c [] = refl
is_one-keys c ((j, u) ∷ s) = ground (arith, is_one-keys c s)

pub contains_key-adjust :
    (k c : Txid) (f : MempoolEntry → MempoolEntry) (es : List (Txid × MempoolEntry))
    → contains_key c (adjust k f es) ≡ contains_key c es
contains_key-adjust k c f es = ground (arith, lookup-adjust k c f es)

flag-adjust :
    (g : MempoolEntry → Bool) (k c : Txid) (f : MempoolEntry → MempoolEntry)
    (es : List (Txid × MempoolEntry))
    → flag g c (adjust k f es) ≡ (if k == c then flag (λ e. g (f e)) c es else flag g c es)
unfolding flag
flag-adjust g k c f es = ground (arith, lookup-adjust k c f es)

flag_and :
    (g h : MempoolEntry → Bool) (b : Bool) (c : Txid) (es : List (Txid × MempoolEntry))
    → ((e : MempoolEntry) → h e ≡ g e && b)
    → flag h c es ≡ flag g c es && b
unfolding flag
flag_and g h b c es s = elim (Option-cases (lookup c es)) [
  | inl a ↦ rw (a, flag) refl
  | inr (e, a) ↦ rw (a, flag) (s e)
]

flag_or :
    (g h : MempoolEntry → Bool) (b : Bool) (c : Txid) (es : List (Txid × MempoolEntry))
    → ((e : MempoolEntry) → h e ≡ g e || b)
    → flag h c es ≡ flag g c es || (b && contains_key c es)
unfolding flag
flag_or g h b c es s = elim (Option-cases (lookup c es)) [
  | inl a ↦ rw (a, flag) (ground arith)
  | inr (e, a) ↦ rw (a, flag) (s e ∙ ground arith)
]

pub flag-adjust_all_and :
    (g : MempoolEntry → Bool) (f : MempoolEntry → MempoolEntry) (b : Bool) (c : Txid)
    → ((e : MempoolEntry) → g (f e) ≡ g e && b)
    → (ks : List Txid) (es : List (Txid × MempoolEntry))
    → flag g c (adjust_all ks f es) ≡ flag g c es && (b || not (is_one c ks))
unfolding adjust_all is_one
flag-adjust_all_and g f b c s [] es = ground arith
flag-adjust_all_and g f b c s (k ∷ ks) es = ground (
  arith,
  flag-adjust_all_and g f b c s ks (adjust k f es),
  flag-adjust g k c f es,
  flag_and g (λ e. g (f e)) b c es s,
)

pub flag-adjust_all_or :
    (g : MempoolEntry → Bool) (f : MempoolEntry → MempoolEntry) (b : Bool) (c : Txid)
    → ((e : MempoolEntry) → g (f e) ≡ g e || b)
    → (ks : List Txid) (es : List (Txid × MempoolEntry))
    → flag g c (adjust_all ks f es) ≡ flag g c es || (b && (is_one c ks && contains_key c es))
unfolding adjust_all is_one
flag-adjust_all_or g f b c s [] es = ground arith
flag-adjust_all_or g f b c s (k ∷ ks) es = ground (
  arith,
  flag-adjust_all_or g f b c s ks (adjust k f es),
  flag-adjust g k c f es,
  flag_or g (λ e. g (f e)) b c es s,
  contains_key-adjust k c f es,
)

pub contains-remove :
    (k c : Txid) (s : HashSet Txid) → contains c (remove k s) ≡ contains c s && not (k == c)
contains-remove k c s = ground (arith, lookup-remove k c s)

pub contains-add : (k c : Txid) (s : HashSet Txid) → contains c (add k s) ≡ contains c s || (k == c)
contains-add k c s = ground (arith, lookup-insert k c tt s)

pub contains-empty : (c : Txid) → contains c [] ≡ false
unfolding lookup
contains-empty c = refl

pub flag-some :
    (g : MempoolEntry → Bool) (k : Txid) (e : MempoolEntry) (es : List (Txid × MempoolEntry))
    → lookup k es ≡ some e
    → flag g k es ≡ g e
unfolding flag
flag-some g k e es h = rw (h, flag) refl

pub flag-none :
    (g : MempoolEntry → Bool) (k : Txid) (es : List (Txid × MempoolEntry))
    → lookup k es ≡ none
    → flag g k es ≡ false
unfolding flag
flag-none g k es h = rw (h, flag) refl
