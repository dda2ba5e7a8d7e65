-- ===== src/AddrMan/Buckets.antt =====
-- The tables and the buckets of src/addrman.rs belong together: the invariant of the address
-- manager and what each call does to it.
use btck_rust_node.Common.{
  ℕ, ◌≡◌, ◌≤◌, ◌+◌, refl, sym, ◌∙◌, Bool, true, false, not, ◌&&◌, ◌||◌, none, some, List, [], ◌∷◌,
  ◌==◌, if◌then◌else◌, arith, nat_key, lookup, insert, remove, adjust, contains, contains_key, add,
  HashSet, length, lookup-insert, lookup-remove, lookup-adjust, Option-cases, inl, inr, none-some,
  length-insert-le, length-remove-le, IsDistinct, remove-IsDistinct,
}
use btck_rust_node.AddrMan.{AddressInfo, set_bucket, victim, make_room, bucket_size}
use btck_rust_node.Chain.{SocketAddr}

-- An address stands in a table, with an entry that belongs to a bucket.
unfoldable pub is_filed :
    (SocketAddr → AddressInfo → ℕ) → ℕ → SocketAddr → List (SocketAddr × AddressInfo) → Bool
is_filed bucket i a addrs = elim (lookup a addrs) [ none ↦ false | some info ↦ bucket a info == i ]

-- The buckets hold the addresses of a table, each in its bucket, and have room for them.
pub record IsFiled (bucket : SocketAddr → AddressInfo → ℕ) (buckets : ℕ → HashSet SocketAddr)
    (addrs : List (SocketAddr × AddressInfo)) : Type 0 where
  pub filed : (i : ℕ) (a : SocketAddr) → contains a (buckets i) ≡ is_filed bucket i a addrs
  pub room : (i : ℕ) → length (buckets i) ≤ bucket_size

is_filed-insert :
    (f : SocketAddr → AddressInfo → ℕ) (i : ℕ) (k a : SocketAddr) (e : AddressInfo)
    (es : List (SocketAddr × AddressInfo))
    → is_filed f i a (insert k e es) ≡ (if k == a then f a e == i else is_filed f i a es)
unfolding is_filed
is_filed-insert f i k a e es = ground (arith, lookup-insert k a e es)

is_filed-remove :
    (f : SocketAddr → AddressInfo → ℕ) (i : ℕ) (k a : SocketAddr)
    (es : List (SocketAddr × AddressInfo))
    → is_filed f i a (remove k es) ≡ is_filed f i a es && not (k == a)
unfolding is_filed
is_filed-remove f i k a es = ground (arith, lookup-remove k a es)

pub is_filed-adjust :
    (f : SocketAddr → AddressInfo → ℕ) (g : AddressInfo → AddressInfo)
    → ((a : SocketAddr) (e : AddressInfo) → f a (g e) ≡ f a e)
    → (i : ℕ) (k a : SocketAddr) (es : List (SocketAddr × AddressInfo))
    → is_filed f i a (adjust k g es) ≡ is_filed f i a es
unfolding is_filed
is_filed-adjust f g s i k a es = elim (Option-cases (lookup a es)) [
  | inl h ↦ ground (arith, lookup-adjust k a g es)
  | inr (e, h) ↦ ground (arith, lookup-adjust k a g es, s a e)
]

contains-remove :
    (k c : SocketAddr) (s : HashSet SocketAddr)
    → contains c (remove k s) ≡ contains c s && not (k == c)
contains-remove k c s = ground (arith, lookup-remove k c s)

contains-add :
    (k c : SocketAddr) (s : HashSet SocketAddr) → contains c (add k s) ≡ contains c s || (k == c)
contains-add k c s = ground (arith, lookup-insert k c tt s)

module _ (f : SocketAddr → AddressInfo → ℕ) where
  pub insert-IsFiled :
      (buckets : ℕ → HashSet SocketAddr) (addrs : List (SocketAddr × AddressInfo))
      → IsFiled f buckets addrs
      → (k : SocketAddr) (e : AddressInfo) → lookup k addrs ≡ none
      → length (buckets (f k e)) + 1 ≤ bucket_size
      → IsFiled f (set_bucket (f k e) (add k (buckets (f k e))) buckets) (insert k e addrs)
  unfolding is_filed
  insert-IsFiled buckets addrs v k e new fits = record {
    filed = λ i a.
        ground
          (arith, v.filed i a, contains-add k a (buckets (f k e)), is_filed-insert f i k a e addrs);
    room = λ i. ground (arith, v.room i, length-insert-le k tt (buckets (f k e)));
  }

  pub remove-IsFiled :
      (buckets : ℕ → HashSet SocketAddr) (addrs : List (SocketAddr × AddressInfo))
      → IsFiled f buckets addrs
      → (k : SocketAddr) (i : ℕ) → is_filed f i k addrs ≡ true
      → IsFiled f (set_bucket i (remove k (buckets i)) buckets) (remove k addrs)
  unfolding is_filed
  remove-IsFiled buckets addrs v k i h = record {
    filed = λ j a.
        ground (arith, v.filed j a, contains-remove k a (buckets i), is_filed-remove f j k a addrs);
    room = λ j. ground (arith, v.room j, length-remove-le k (buckets i));
  }

  -- An address that stays where it is, with an entry of the same bucket.
  pub adjust-IsFiled :
      (buckets : ℕ → HashSet SocketAddr) (addrs : List (SocketAddr × AddressInfo))
      → IsFiled f buckets addrs
      → (g : AddressInfo → AddressInfo) → ((a : SocketAddr) (e : AddressInfo) → f a (g e) ≡ f a e)
      → (k : SocketAddr) → IsFiled f buckets (adjust k g addrs)
  adjust-IsFiled buckets addrs v g s k = record {
    filed = λ i a. v.filed i a ∙ sym (is_filed-adjust f g s i k a addrs);
    room = v.room;
  }

  victim-eq-some :
      (b : HashSet SocketAddr) {a : SocketAddr}
      → victim b ≡ some a
      → length b ≤ bucket_size
      → (contains a b ≡ true) × (length (remove a b) + 1 ≤ bucket_size)
  unfolding victim lookup remove
  victim-eq-some [] h n = absurd (none-some refl h)
  victim-eq-some ((k, u) ∷ b) h n = ground (arith, length-remove-le k b)

  victim-eq-none : (b : HashSet SocketAddr) → victim b ≡ none → length b + 1 ≤ bucket_size
  unfolding victim
  victim-eq-none [] h = omega arith
  victim-eq-none ((k, u) ∷ b) h = ground arith

  pub make_room_lem :
      (i : ℕ) (buckets : ℕ → HashSet SocketAddr) (addrs : List (SocketAddr × AddressInfo))
      → IsFiled f buckets addrs
      → (let r = make_room i buckets addrs in
          IsFiled f r.0 r.1
          × (length (r.0 i) + 1 ≤ bucket_size)
          × ((a : SocketAddr) → contains_key a addrs ≡ false → contains_key a r.1 ≡ false)
          × (length r.1 ≤ length addrs)
          × (IsDistinct addrs → IsDistinct r.1))
  unfolding make_room
  make_room_lem i buckets addrs v = elim (Option-cases (victim (buckets i))) [
    | inl e ↦ rw (e, make_room) (v, victim-eq-none (buckets i) e, (λ a h. h), omega arith, λ d. d)
    | inr (k, e) ↦
        let (there, room) = victim-eq-some (buckets i) e (v.room i) in
        rw (e, make_room)
          (
            remove-IsFiled buckets addrs v k i (sym (v.filed i k) ∙ there),
            ground arith,
            (λ a h. ground (arith, lookup-remove k a addrs)),
            length-remove-le k addrs,
            remove-IsDistinct k addrs,
          )
  ]
