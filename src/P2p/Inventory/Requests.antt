-- ===== src/P2p/Inventory/Requests.antt =====
-- `get_requests`, `check_timeouts` and `prune_have` of src/p2p/inventory.rs.
use btck_rust_node.Common.{
  ℕ, ◌+◌, ◌-◌, ◌≤◌, ◌≡◌, refl, sym, ap, ◌∙◌, true, none, some, List, [], ◌∷◌, ◌++◌, length,
  length-append, Has-append, leb, arith, lookup, insert, lookup-insert, lookup-remove,
  length-insert-le, Bool-cases, Option-cases, inl, inr, ◌⊎◌, none-some, keys, Has,
  lookup_of_Has-keys, if_pos, if_neg, insert-IsDistinct,
}
use btck_rust_node.P2p.Inventory.{
  InvId, InvId-discrete, inv_id_key, RequestState, InventoryManager, count_peer, select,
  mark_requested, get_requests, announced_by,
}
use btck_rust_node.Chain.{SocketAddr}
use btck_rust_node.P2p.Inventory.Sound.{IsSound, count_peer-insert-le}

-- The selection stays within the room for the peer and within the total limit.
select-le :
    (m : InventoryManager) (peer : SocketAddr) (room : ℕ) (requests ids : List InvId)
    → length requests ≤ room
    → length m.in_flight + length requests ≤ m.max_in_flight
    → (length (select m peer room requests ids) ≤ room)
      × (length m.in_flight + length (select m peer room requests ids) ≤ m.max_in_flight)
unfolding select
select-le m peer room requests [] h k = (h, k)
select-le m peer room requests (id ∷ ids) h k = ground (
  arith,
  length-append requests (id ∷ []),
  select-le m peer room requests ids,
  select-le m peer room (requests ++ id ∷ []) ids,
)

-- An item is among the requests so far, or it is still to come and the peer has announced it.
abbrev Chosen : InventoryManager → SocketAddr → List InvId → List InvId → InvId → Type 0
Chosen m peer requests ids x =
    Has x requests ⊎ (Has x ids × (announced_by m.announced x peer ≡ true))

Chosen-pass :
    (m : InventoryManager) (peer : SocketAddr) (requests ids : List InvId) (id x : InvId)
    → Chosen m peer requests ids x
    → Chosen m peer requests (id ∷ ids) x
Chosen-pass m peer requests ids id x (inl a) = inl a
Chosen-pass m peer requests ids id x (inr (b, c)) = inr (inr b, c)

Chosen-take :
    (m : InventoryManager) (peer : SocketAddr) (requests ids : List InvId) (id x : InvId)
    → announced_by m.announced id peer ≡ true
    → Chosen m peer (requests ++ id ∷ []) ids x
    → Chosen m peer requests (id ∷ ids) x
Chosen-take m peer requests ids id x t (inr (b, c)) = inr (inr b, c)
Chosen-take m peer requests ids id x t (inl a) = elim (Has-append x requests (id ∷ []) a) [
  | inl old ↦ inl old
  | inr new ↦ elim new [
    | inl same ↦ inr (inl same, ap (λ i. announced_by m.announced i peer) (sym same) ∙ t)
    | inr none' ↦ absurd none'
  ]
]

-- What is selected was wanted, and announced by the peer.
select-Chosen :
    (m : InventoryManager) (peer : SocketAddr) (room : ℕ) (requests ids : List InvId) (x : InvId)
    → Has x (select m peer room requests ids)
    → Chosen m peer requests ids x
unfolding select
select-Chosen m peer room requests [] x h = inl h
select-Chosen m peer room requests (id ∷ ids) x h = elim (Bool-cases (leb room (length requests))) [
  | inl a ↦ inl (rw (a, select) at h)
  | inr a ↦ elim (Bool-cases (leb m.max_in_flight (length m.in_flight + length requests))) [
    | inl b ↦ inl (rw (a, b, select) at h)
    | inr b ↦ elim (Bool-cases (announced_by m.announced id peer)) [
      | inr c ↦
          Chosen-pass m peer requests ids id x
            (select-Chosen m peer room requests ids x (rw (a, b, c, select) at h))
      | inl c ↦
          Chosen-take m peer requests ids id x c
            (select-Chosen m peer room (requests ++ id ∷ []) ids x (rw (a, b, c, select) at h))
    ]
  ]
]

-- The new state keeps the rest of the manager.
mark_requested_rest :
    (peer : SocketAddr) (now : ℕ) (ids : List InvId) (m : InventoryManager)
    → ((mark_requested peer now ids m).have ≡ m.have)
      × ((mark_requested peer now ids m).announced ≡ m.announced)
      × ((mark_requested peer now ids m).max_in_flight ≡ m.max_in_flight)
      × ((mark_requested peer now ids m).max_per_peer ≡ m.max_per_peer)
unfolding mark_requested
mark_requested_rest peer now [] m = (refl, refl, refl, refl)
mark_requested_rest peer now (id ∷ ids) m = mark_requested_rest peer now ids _

mark_requested-IsSound :
    (peer : SocketAddr) (now : ℕ) (ids : List InvId) (m : InventoryManager)
    → IsSound m
    → length m.in_flight + length ids ≤ m.max_in_flight
    → count_peer peer m.in_flight + length ids ≤ m.max_per_peer
    → ((x : InvId) → Has x ids → lookup x m.have ≡ none)
    → IsSound (mark_requested peer now ids m)
unfolding mark_requested
mark_requested-IsSound peer now [] m v h k fresh = v
mark_requested-IsSound peer now (id ∷ ids) m v h k fresh =
    mark_requested-IsSound peer now ids _
      (record {
        distinct = insert-IsDistinct id s m.in_flight v.distinct;
        total_bound = omega (arith, length-insert-le id s m.in_flight);
        peer_bound = λ p. ground (arith, count_peer-insert-le p id s m.in_flight, v.peer_bound p);
        had_wanted = λ j a. ground (arith, lookup-remove id j m.wanted, v.had_wanted j a);
        had_flight = λ j a. flight j a;
        first_attempts =
            λ j t a. ground (arith, lookup-insert id j s m.in_flight, v.first_attempts j t);
      })
      (omega (arith, length-insert-le id s m.in_flight))
      (ground (arith, count_peer-insert-le peer id s m.in_flight)) (λ x a. fresh x (inr a))
  where
    s : RequestState
    s = record { peer = peer; requested_at = now; attempts = 1 }

    flight : (j : InvId) → lookup j m.have ≡ some tt → lookup j (insert id s m.in_flight) ≡ none
    flight j a = elim (InvId-discrete id j) [
      | yes same ↦ absurd (none-some (fresh id (inl refl)) (ap (λ t. lookup t m.have) same ∙ a))
      | no ne ↦
          lookup-insert id j s m.in_flight ∙ if_neg (InvId-discrete id j) ne _ _ ∙ v.had_flight j a
    ]

-- What is requested was wanted, so it is not at hand.
selected_fresh :
    (m : InventoryManager) (peer : SocketAddr) (room : ℕ)
    → IsSound m
    → (x : InvId) → Has x (select m peer room [] (keys m.wanted))
    → lookup x m.have ≡ none
selected_fresh m peer room v x h = elim (select-Chosen m peer room [] (keys m.wanted) x h) [
  | inl a ↦ absurd a
  | inr (w, _) ↦ elim (Option-cases (lookup x m.have)) [
    | inl n ↦ n
    | inr (u, y) ↦ absurd (none-some (v.had_wanted x y) (lookup_of_Has-keys x m.wanted w).1)
  ]
]

pub get_requests-IsSound :
    (m : InventoryManager) (peer : SocketAddr) (now : ℕ)
    → IsSound m
    → IsSound (get_requests m peer now).0
unfolding get_requests
get_requests-IsSound m peer now v = elim (Bool-cases (leb m.max_in_flight (length m.in_flight))) [
  | inl a ↦ rw a v
  | inr a ↦ elim (Bool-cases (leb m.max_per_peer (count_peer peer m.in_flight))) [
    | inl b ↦ rw (a, b, get_requests) v
    | inr b ↦
        let bounds = select-le m peer room [] (keys m.wanted) (omega arith) (ground arith) in
        rw (a, b, get_requests)
          (mark_requested-IsSound peer now (select m peer room [] (keys m.wanted)) m v bounds.1
            (ground (arith, bounds.0)) (selected_fresh m peer room v))
  ]
]
  where
    room : ℕ
    room = m.max_per_peer - count_peer peer m.in_flight

-- A marked item is in flight to the peer, and no longer wanted.
mark_requested-Has :
    (peer : SocketAddr) (now : ℕ) (ids : List InvId) (m : InventoryManager) (x : InvId)
    → (Has x ids
        ⊎ ((lookup x m.in_flight ≡ some (record { peer = peer; requested_at = now; attempts = 1 }))
            × (lookup x m.wanted ≡ none)))
    → (lookup x (mark_requested peer now ids m).in_flight
        ≡ some (record { peer = peer; requested_at = now; attempts = 1 }))
      × (lookup x (mark_requested peer now ids m).wanted ≡ none)
unfolding mark_requested
mark_requested-Has peer now [] m x (inl a) = absurd a
mark_requested-Has peer now [] m x (inr b) = b
mark_requested-Has peer now (id ∷ ids) m x h =
    mark_requested-Has peer now ids _ x (elim (InvId-discrete id x) [
      | yes same ↦ inr (
        lookup-insert id x s m.in_flight ∙ if_pos (InvId-discrete id x) same _ _,
        lookup-remove id x m.wanted ∙ if_pos (InvId-discrete id x) same _ _,
      )
      | no ne ↦ elim h [
        | inl a ↦ elim a [ inl same ↦ absurd (ne same) | inr later ↦ inl later ]
        | inr b ↦ inr (
          lookup-insert id x s m.in_flight ∙ if_neg (InvId-discrete id x) ne _ _ ∙ b.0,
          lookup-remove id x m.wanted ∙ if_neg (InvId-discrete id x) ne _ _ ∙ b.1,
        )
      ]
    ])
  where
    s : RequestState
    s = record { peer = peer; requested_at = now; attempts = 1 }

-- Every item that `get_requests` returns was wanted and announced by the peer; afterwards it is in
-- flight to that peer as a first attempt, and not wanted.
pub get_requests-Has :
    (m : InventoryManager) (peer : SocketAddr) (now : ℕ) (x : InvId)
    → Has x (get_requests m peer now).1
    → Has x (keys m.wanted)
      × (announced_by m.announced x peer ≡ true)
      × (lookup x (get_requests m peer now).0.in_flight
          ≡ some (record { peer = peer; requested_at = now; attempts = 1 }))
      × (lookup x (get_requests m peer now).0.wanted ≡ none)
unfolding get_requests
get_requests-Has m peer now x h = elim (Bool-cases (leb m.max_in_flight (length m.in_flight))) [
  | inl a ↦ absurd (rw (a, get_requests) at h)
  | inr a ↦ elim (Bool-cases (leb m.max_per_peer (count_peer peer m.in_flight))) [
    | inl b ↦ absurd (rw (a, b, get_requests) at h)
    | inr b ↦
        let chosen : Has x (select m peer room [] (keys m.wanted)) = rw (a, b, get_requests) at h in
        let (flying, gone) = mark_requested-Has peer now _ m x (inl chosen) in
        rw (a, b, get_requests)
          (was (select-Chosen m peer room [] (keys m.wanted) x chosen) flying gone)
  ]
]
  where
    room : ℕ
    room = m.max_per_peer - count_peer peer m.in_flight

    was :
        {P Q : Type 0}
        → Chosen m peer [] (keys m.wanted) x
        → P
        → Q
        → Has x (keys m.wanted) × (announced_by m.announced x peer ≡ true) × P × Q
    was (inl a) p q = absurd a
    was (inr (w, t)) p q = (w, t, p, q)
