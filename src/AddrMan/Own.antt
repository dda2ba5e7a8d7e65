-- ===== src/AddrMan/Own.antt =====
-- The node's own addresses, and what `add` and `good` do (src/addrman.rs).
use btck_rust_node.Common.{
  ℕ, ◌≡◌, ◌<◌, ◌+◌, refl, Bool, true, false, not, ◌&&◌, Option, some, List, [], ◌∷◌, leb, ◌==◌,
  arith, nat_key, lookup, contains, contains_key, HashSet, length, lookup-insert, lookup-remove,
  lookup-adjust, Option-cases, inl, inr, if-elim,
}
use btck_rust_node.AddrMan.{
  AddressInfo, AddressManager, victim, make_room, hear, succeed, try, get_new_bucket,
  get_tried_bucket, add_new, add_address, promote, good, attempt, add_own_address, clear_addresses,
  new_info, max_addresses, is_terrible,
}
use btck_rust_node.Chain.{SocketAddr}
use btck_rust_node.AddrMan.Calls.{
  AddrCall, adds, goods, attempts, owns, clears, step, run, IsSound, contains_key-adjust,
}

-- An address in no table.
abbrev pub is_absent : SocketAddr → AddressManager → Bool
is_absent a m = not (contains_key a m.new_addrs) && not (contains_key a m.tried_addrs)

-- An own address in no table.
abbrev IsAvoided : SocketAddr → AddressManager → Type 0
IsAvoided a m = (contains a m.own_addrs ≡ true) × (is_absent a m ≡ true)

make_room_absent :
    (a : SocketAddr) (i : ℕ) (buckets : ℕ → HashSet SocketAddr)
    (addrs : List (SocketAddr × AddressInfo))
    → contains_key a addrs ≡ false
    → contains_key a (make_room i buckets addrs).1 ≡ false
unfolding make_room
make_room_absent a i buckets addrs h = elim (Option-cases (victim (buckets i))) [
  | inl e ↦ rw (e, make_room) h
  | inr (k, e) ↦ rw (e, make_room) (ground (arith, lookup-remove k a addrs))
]

module _ (finish : List SocketAddr → ℕ) where
  add_new-IsAvoided :
      (a : SocketAddr) (m : AddressManager) (addr services : ℕ) (source : Option SocketAddr)
      (now pos : ℕ)
      → IsAvoided a m
      → (addr == a) ≡ false
      → IsAvoided a (add_new finish m addr services source now pos).0
  unfolding add_new
  add_new-IsAvoided a m addr services source now pos v ne =
      let i = get_new_bucket finish addr source in
      let info = new_info addr services source now pos in
      let addrs = (make_room i m.new_buckets m.new_addrs).1 in
      let absent = make_room_absent a i m.new_buckets m.new_addrs in
      if-elim (λ (r : AddressManager × Bool). IsAvoided a r.0) (leb max_addresses (length addrs))
        (λ full. (v.0, ground arith))
        (λ space. (v.0, ground (arith, lookup-insert addr a info addrs)))

  add_address-IsAvoided :
      (a : SocketAddr) (m : AddressManager) (addr services : ℕ) (source : Option SocketAddr)
      (now pos : ℕ)
      → IsAvoided a m
      → IsAvoided a (add_address finish m addr services source now pos).0
  unfolding add_address
  add_address-IsAvoided a m addr services source now pos v =
      let P : AddressManager × Bool → Type 0 = λ r. IsAvoided a r.0 in
      if-elim P (contains addr m.own_addrs) (λ o. v)
        (λ o.
          if-elim P (contains_key addr m.tried_addrs) (λ b. v)
            (λ b.
              if-elim P (contains_key addr m.new_addrs)
                (λ c.
                  (v.0, ground (arith, contains_key-adjust addr a (hear services now) m.new_addrs)))
                (λ c. add_new-IsAvoided a m addr services source now pos v (ground arith))))

  good-IsAvoided :
      (a : SocketAddr) (m : AddressManager) (addr : SocketAddr) (now : ℕ)
      → IsAvoided a m
      → IsAvoided a (good finish m addr now)
  unfolding good promote
  good-IsAvoided a m addr now v = elim (Option-cases (lookup addr m.new_addrs)) [
    | inl h ↦
        rw (h, good) (v.0, ground (arith, contains_key-adjust addr a (succeed now) m.tried_addrs))
    | inr (info, h) ↦
        let j = get_tried_bucket finish addr in
        let addrs = (make_room j m.tried_buckets m.tried_addrs).1 in
        rw (h, good)
          (
            v.0,
            ground (
              arith,
              make_room_absent a j m.tried_buckets m.tried_addrs,
              lookup-insert addr a (succeed now info) addrs,
              lookup-remove addr a m.new_addrs,
            ),
          )
  ]

  attempt-IsAvoided :
      (a : SocketAddr) (m : AddressManager) (addr : SocketAddr) (now : ℕ)
      → IsAvoided a m
      → IsAvoided a (attempt m addr now)
  unfolding attempt
  attempt-IsAvoided a m addr now v =
      if-elim (IsAvoided a) (contains_key addr m.new_addrs)
        (λ b. (v.0, ground (arith, contains_key-adjust addr a (try now) m.new_addrs)))
        (λ b. (v.0, ground (arith, contains_key-adjust addr a (try now) m.tried_addrs)))

  step-IsAvoided :
      (a : SocketAddr) (m : AddressManager) (c : AddrCall)
      → IsAvoided a m
      → IsAvoided a (step finish m c)
  unfolding step add_own_address clear_addresses lookup
  step-IsAvoided a m (adds addr services source now pos) v =
      add_address-IsAvoided a m addr services source now pos v
  step-IsAvoided a m (goods addr now) v = good-IsAvoided a m addr now v
  step-IsAvoided a m (attempts addr now) v = attempt-IsAvoided a m addr now v
  step-IsAvoided a m (owns addr) v = (ground (arith, lookup-insert addr a tt m.own_addrs), v.1)
  step-IsAvoided a m clears v = (v.0, refl)

  run-IsAvoided :
      (a : SocketAddr) (cs : List AddrCall) (m : AddressManager)
      → IsAvoided a m
      → IsAvoided a (run finish cs m)
  unfolding run
  run-IsAvoided a [] m v = v
  run-IsAvoided a (c ∷ cs) m v = run-IsAvoided a cs (step finish m c) (step-IsAvoided a m c v)

  -- An address that is in no table when it is added to the node's own is in no table after any
  -- calls either.
  pub run-add_own_address :
      (a : SocketAddr) (m : AddressManager) (cs : List AddrCall)
      → is_absent a m ≡ true
      → is_absent a (run finish cs (add_own_address m a)) ≡ true
  unfolding add_own_address
  run-add_own_address a m cs h =
      (run-IsAvoided a cs (add_own_address m a)
        (ground (arith, lookup-insert a a tt m.own_addrs), h)).1

-- What a call of `good` leaves of an address that a table has.
pub record IsPromoted (a : SocketAddr) (now : ℕ) (m : AddressManager) : Type 0 where
  pub info : AddressInfo
  pub there : lookup a m.tried_addrs ≡ some info
  pub left : contains_key a m.new_addrs ≡ false
  pub no_attempts : info.attempts ≡ 0
  pub succeeded : info.last_success ≡ some now
  pub waits : (later : ℕ) → later < now + 60000000000 → is_terrible info later ≡ true

succeed-IsPromoted :
    (a : SocketAddr) (now : ℕ) (m : AddressManager) (info : AddressInfo)
    → lookup a m.tried_addrs ≡ some (succeed now info)
    → contains_key a m.new_addrs ≡ false
    → IsPromoted a now m
unfolding succeed is_terrible
succeed-IsPromoted a now m info h l = record {
  info = record info { last_success = some now; last_try = some now; attempts = 0 };
  there = h;
  left = l;
  no_attempts = refl;
  succeeded = refl;
  waits = λ later early. ground arith;
}

module _ (finish : List SocketAddr → ℕ) where
  -- On a manager that is sound, after `good` an address that a table had stands in the tried table alone, without failed
  -- attempts and with its success recorded; and for a minute it counts as terrible.
  pub good-IsPromoted :
      (m : AddressManager) (a : SocketAddr) (now : ℕ)
      → IsSound finish m
      → is_absent a m ≡ false
      → IsPromoted a now (good finish m a now)
  unfolding good promote
  good-IsPromoted m a now v h = elim (Option-cases (lookup a m.new_addrs)) [
    | inl e ↦ elim (Option-cases (lookup a m.tried_addrs)) [
      | inl f ↦ absurd (ground arith)
      | inr (info, f) ↦
          rw (e, good)
            (succeed-IsPromoted a now _ info
              (ground (arith, lookup-adjust a a (succeed now) m.tried_addrs)) (ground arith))
    ]
    | inr (info, e) ↦
        let j = get_tried_bucket finish a in
        let addrs = (make_room j m.tried_buckets m.tried_addrs).1 in
        rw (e, good)
          (succeed-IsPromoted a now _ info
            (ground (arith, lookup-insert a a (succeed now info) addrs))
            (ground (arith, lookup-remove a a m.new_addrs)))
  ]
