-- ===== src/AddrMan/Calls.antt =====
-- Any sequence of calls of src/addrman.rs, and what they keep of the tables and the buckets.
use btck_rust_node.Common.{
  ℕ, ◌≡◌, ◌≤◌, refl, ap, Bool, false, ◌&&◌, Option, some, List, [], ◌∷◌, leb, arith, nat_key,
  lookup, adjust, contains, contains_key, HashSet, length, lookup-insert, lookup-remove,
  lookup-adjust, Option-cases, inl, inr, length-insert-le, length-remove-le, IsDistinct,
  remove-IsDistinct, insert-IsDistinct, adjust-IsDistinct, if-elim,
}
use btck_rust_node.AddrMan.{
  AddressInfo, AddressManager, new_manager, make_room, hear, succeed, try, get_new_bucket,
  get_tried_bucket, add_new, add_address, promote, good, attempt, add_own_address, clear_addresses,
  new_info, max_addresses,
}
use btck_rust_node.Chain.{SocketAddr}
use btck_rust_node.AddrMan.Buckets.{
  IsFiled, is_filed, insert-IsFiled, remove-IsFiled, adjust-IsFiled, make_room_lem,
}

-- The calls that change the manager, each with the reading of the clock where it reads it.
pub data AddrCall : Type 0 where
  adds : SocketAddr → ℕ → Option SocketAddr → ℕ → ℕ → AddrCall
  goods : SocketAddr → ℕ → AddrCall
  attempts : SocketAddr → ℕ → AddrCall
  owns : SocketAddr → AddrCall
  clears : AddrCall

length-adjust :
    (k : SocketAddr) (g : AddressInfo → AddressInfo) (m : List (SocketAddr × AddressInfo))
    → length (adjust k g m) ≡ length m
unfolding adjust
length-adjust k g [] = refl
length-adjust k g ((j, e) ∷ m) = ground (arith, length-adjust k g m)

pub contains_key-adjust :
    (k a : SocketAddr) (g : AddressInfo → AddressInfo) (m : List (SocketAddr × AddressInfo))
    → contains_key a (adjust k g m) ≡ contains_key a m
contains_key-adjust k a g m = ground (arith, lookup-adjust k a g m)

module _ (finish : List SocketAddr → ℕ) where
  unfoldable pub step : AddressManager → AddrCall → AddressManager
  step m (adds addr services source now pos) = (add_address finish m addr services source now pos).0
  step m (goods addr now) = good finish m addr now
  step m (attempts addr now) = attempt m addr now
  step m (owns addr) = add_own_address m addr
  step m clears = clear_addresses m

  unfoldable pub run : List AddrCall → AddressManager → AddressManager
  run [] m = m
  run (c ∷ cs) m = run cs (step m c)

  abbrev pub bucket_new : SocketAddr → AddressInfo → ℕ
  bucket_new a e = get_new_bucket finish a e.source

  abbrev pub bucket_tried : SocketAddr → AddressInfo → ℕ
  bucket_tried a e = get_tried_bucket finish a

  -- No address is in both tables, each stands once and in its bucket, the buckets hold no other
  -- address and no more than their size, and the new table is within its limit.
  pub record IsSound (m : AddressManager) : Type 0 where
    pub fresh : IsFiled bucket_new m.new_buckets m.new_addrs
    pub tried : IsFiled bucket_tried m.tried_buckets m.tried_addrs
    pub apart :
        (a : SocketAddr) → contains_key a m.new_addrs && contains_key a m.tried_addrs ≡ false
    pub bounded : length m.new_addrs ≤ max_addresses
    pub new_distinct : IsDistinct m.new_addrs
    pub tried_distinct : IsDistinct m.tried_addrs

  adjust_new-IsSound :
      (m : AddressManager) (addr : SocketAddr) (g : AddressInfo → AddressInfo)
      → ((e : AddressInfo) → (g e).source ≡ e.source)
      → IsSound m
      → IsSound (record m { new_addrs = adjust addr g m.new_addrs })
  adjust_new-IsSound m addr g s v = record {
    fresh =
        adjust-IsFiled bucket_new m.new_buckets m.new_addrs v.fresh g
          (λ a e. ap (get_new_bucket finish a) (s e)) addr;
    tried = v.tried;
    apart = λ a. ground (arith, v.apart a, contains_key-adjust addr a g m.new_addrs);
    bounded = ground (arith, v.bounded, length-adjust addr g m.new_addrs);
    new_distinct = adjust-IsDistinct addr g m.new_addrs v.new_distinct;
    tried_distinct = v.tried_distinct;
  }

  adjust_tried-IsSound :
      (m : AddressManager) (addr : SocketAddr) (g : AddressInfo → AddressInfo)
      → IsSound m
      → IsSound (record m { tried_addrs = adjust addr g m.tried_addrs })
  adjust_tried-IsSound m addr g v = record {
    fresh = v.fresh;
    tried = adjust-IsFiled bucket_tried m.tried_buckets m.tried_addrs v.tried g (λ a e. refl) addr;
    apart = λ a. ground (arith, v.apart a, contains_key-adjust addr a g m.tried_addrs);
    bounded = v.bounded;
    new_distinct = v.new_distinct;
    tried_distinct = adjust-IsDistinct addr g m.tried_addrs v.tried_distinct;
  }

  add_new-IsSound :
      (m : AddressManager) (addr services : ℕ) (source : Option SocketAddr) (now pos : ℕ)
      → IsSound m
      → contains_key addr m.new_addrs ≡ false
      → contains_key addr m.tried_addrs ≡ false
      → IsSound (add_new finish m addr services source now pos).0
  unfolding add_new new_info
  add_new-IsSound m addr services source now pos v n t =
      let i = get_new_bucket finish addr source in
      let info = new_info addr services source now pos in
      let (buckets, addrs) = make_room i m.new_buckets m.new_addrs in
      let (filed, fits, absent, shorter, distinct) =
        make_room_lem bucket_new i m.new_buckets m.new_addrs v.fresh in
      if-elim (λ (r : AddressManager × Bool). IsSound r.0) (leb max_addresses (length addrs))
        (λ full. record {
          fresh = filed;
          tried = v.tried;
          apart = λ a. ground (arith, v.apart a, absent a);
          bounded = ground (arith, v.bounded);
          new_distinct = distinct v.new_distinct;
          tried_distinct = v.tried_distinct;
        })
        (λ space. record {
          fresh =
              insert-IsFiled bucket_new buckets addrs filed addr info (ground (arith, absent addr))
                fits;
          tried = v.tried;
          apart = λ a. ground (arith, v.apart a, absent a, lookup-insert addr a info addrs);
          bounded = ground (arith, length-insert-le addr info addrs);
          new_distinct = insert-IsDistinct addr info addrs (distinct v.new_distinct);
          tried_distinct = v.tried_distinct;
        })

  add_address-IsSound :
      (m : AddressManager) (addr services : ℕ) (source : Option SocketAddr) (now pos : ℕ)
      → IsSound m
      → IsSound (add_address finish m addr services source now pos).0
  unfolding add_address hear
  add_address-IsSound m addr services source now pos v =
      let P : AddressManager × Bool → Type 0 = λ r. IsSound r.0 in
      if-elim P (contains addr m.own_addrs) (λ a. v)
        (λ a.
          if-elim P (contains_key addr m.tried_addrs) (λ b. v)
            (λ b.
              if-elim P (contains_key addr m.new_addrs)
                (λ c. adjust_new-IsSound m addr (hear services now) (λ e. refl) v)
                (λ c. add_new-IsSound m addr services source now pos v c b)))

  promote-IsSound :
      (m : AddressManager) (addr : SocketAddr) (info : AddressInfo) (now : ℕ)
      → IsSound m
      → lookup addr m.new_addrs ≡ some info
      → IsSound (promote finish m addr info now)
  unfolding promote is_filed
  promote-IsSound m addr info now v h =
      let j = get_tried_bucket finish addr in
      let (buckets, addrs) = make_room j m.tried_buckets m.tried_addrs in
      let (filed, fits, absent, shorter, distinct) =
        make_room_lem bucket_tried j m.tried_buckets m.tried_addrs v.tried in
      record {
        fresh =
            remove-IsFiled bucket_new m.new_buckets m.new_addrs v.fresh addr
              (get_new_bucket finish addr info.source) (ground arith);
        tried =
            insert-IsFiled bucket_tried buckets addrs filed addr (succeed now info)
              (ground (arith, v.apart addr, absent addr)) fits;
        apart = λ a. ground (
          arith,
          v.apart a,
          absent a,
          lookup-remove addr a m.new_addrs,
          lookup-insert addr a (succeed now info) addrs,
        );
        bounded = ground (arith, v.bounded, length-remove-le addr m.new_addrs);
        new_distinct = remove-IsDistinct addr m.new_addrs v.new_distinct;
        tried_distinct =
            insert-IsDistinct addr (succeed now info) addrs (distinct v.tried_distinct);
      }

  good-IsSound :
      (m : AddressManager) (addr : SocketAddr) (now : ℕ)
      → IsSound m
      → IsSound (good finish m addr now)
  unfolding good
  good-IsSound m addr now v = elim (Option-cases (lookup addr m.new_addrs)) [
    | inl a ↦ rw (a, good) (adjust_tried-IsSound m addr (succeed now) v)
    | inr (info, a) ↦ rw (a, good) (promote-IsSound m addr info now v a)
  ]

  attempt-IsSound :
      (m : AddressManager) (addr : SocketAddr) (now : ℕ) → IsSound m → IsSound (attempt m addr now)
  unfolding attempt try
  attempt-IsSound m addr now v =
      if-elim IsSound (contains_key addr m.new_addrs)
        (λ a. adjust_new-IsSound m addr (try now) (λ e. refl) v)
        (λ a. adjust_tried-IsSound m addr (try now) v)

  empty-IsSound : (own : HashSet SocketAddr) → IsSound (record new_manager { own_addrs = own })
  unfolding new_manager lookup is_filed
  empty-IsSound own = record {
    fresh = record { filed = λ i a. refl; room = λ i. omega arith };
    tried = record { filed = λ i a. refl; room = λ i. omega arith };
    apart = λ a. refl;
    bounded = omega arith;
    new_distinct = tt;
    tried_distinct = tt;
  }

  step-IsSound : (m : AddressManager) (c : AddrCall) → IsSound m → IsSound (step m c)
  unfolding step add_own_address clear_addresses new_manager
  step-IsSound m (adds addr services source now pos) v =
      add_address-IsSound m addr services source now pos v
  step-IsSound m (goods addr now) v = good-IsSound m addr now v
  step-IsSound m (attempts addr now) v = attempt-IsSound m addr now v
  step-IsSound m (owns addr) v = record {
    fresh = v.fresh;
    tried = v.tried;
    apart = v.apart;
    bounded = v.bounded;
    new_distinct = v.new_distinct;
    tried_distinct = v.tried_distinct;
  }
  step-IsSound m clears v = empty-IsSound m.own_addrs

  run-IsSound : (cs : List AddrCall) (m : AddressManager) → IsSound m → IsSound (run cs m)
  unfolding run
  run-IsSound [] m v = v
  run-IsSound (c ∷ cs) m v = run-IsSound cs (step m c) (step-IsSound m c v)

  -- After any calls on a new address manager, whatever the hasher answers, no address is in both
  -- tables, each stands once in its table and in the bucket that the hasher gives it, the buckets
  -- hold no other address and at most 64, and there are at most 20000 new addresses.
  pub run-new_manager-IsSound : (cs : List AddrCall) → IsSound (run cs new_manager)
  unfolding new_manager
  run-new_manager-IsSound cs = run-IsSound cs new_manager (empty-IsSound [])
