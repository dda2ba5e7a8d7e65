-- ===== src/P2p/Inventory/Sound.antt =====
-- An invariant of the inventory manager (src/p2p/inventory.rs): its limits hold, and what it has
-- is neither wanted nor in flight.
use btck_rust_node.Common.{
  ◌+◌, ◌≤◌, ◌≡◌, refl, none, some, List, [], ◌∷◌, length, ◌==◌, arith, lookup, insert, remove,
  lookup-insert, lookup-remove, length-remove-le, Option-cases, inl, inr, none-some, if◌then◌else◌,
  IsDistinct, remove-IsDistinct,
}
use btck_rust_node.P2p.Inventory.{
  InvId, inv_id_key, RequestState, InventoryManager, new_inventory, want, mark_received, announce,
  count_peer,
}
use btck_rust_node.Chain.{SocketAddr}

pub record IsSound (m : InventoryManager) : Type 0 where
  pub distinct : IsDistinct m.in_flight
  pub total_bound : length m.in_flight ≤ m.max_in_flight
  pub peer_bound : (p : SocketAddr) → count_peer p m.in_flight ≤ m.max_per_peer
  pub had_wanted : (id : InvId) → lookup id m.have ≡ some tt → lookup id m.wanted ≡ none
  pub had_flight : (id : InvId) → lookup id m.have ≡ some tt → lookup id m.in_flight ≡ none
  pub first_attempts :
      (id : InvId) (s : RequestState) → lookup id m.in_flight ≡ some s → s.attempts ≡ 1

-- The number of a peer's requests moves with the map.
pub count_peer-remove-le :
    (p : SocketAddr) (id : InvId) (m : List (InvId × RequestState))
    → count_peer p (remove id m) ≤ count_peer p m
unfolding count_peer remove
count_peer-remove-le p id [] = omega arith
count_peer-remove-le p id ((j, s) ∷ m) = ground (arith, count_peer-remove-le p id m)

pub count_peer-insert-le :
    (p : SocketAddr) (id : InvId) (s : RequestState) (m : List (InvId × RequestState))
    → count_peer p (insert id s m) ≤ count_peer p m + (if s.peer == p then 1 else 0)
unfolding count_peer insert
count_peer-insert-le p id s [] = ground arith
count_peer-insert-le p id s ((j, t) ∷ m) = ground (arith, count_peer-insert-le p id s m)

pub new_inventory-IsSound : IsSound new_inventory
unfolding new_inventory lookup count_peer
new_inventory-IsSound = record {
  distinct = tt;
  total_bound = omega arith;
  peer_bound = λ p. omega arith;
  had_wanted = λ id h. refl;
  had_flight = λ id h. refl;
  first_attempts = λ id s h. absurd (none-some refl h);
}

pub want-IsSound : (m : InventoryManager) (id : InvId) → IsSound m → IsSound (want m id)
unfolding want
want-IsSound m id v = elim (Option-cases (lookup id m.have)) [
  | inr (u, a) ↦ rw (a, want) v
  | inl a ↦ elim (Option-cases (lookup id m.in_flight)) [
    | inr (s, b) ↦ rw (a, b, want) v
    | inl b ↦
        rw (a, b, want)
          (record {
            distinct = v.distinct;
            total_bound = v.total_bound;
            peer_bound = v.peer_bound;
            had_wanted = λ j h. ground (arith, lookup-insert id j tt m.wanted, v.had_wanted j h);
            had_flight = v.had_flight;
            first_attempts = v.first_attempts;
          })
  ]
]

pub mark_received-IsSound :
    (m : InventoryManager) (id : InvId) → IsSound m → IsSound (mark_received m id)
unfolding mark_received
mark_received-IsSound m id v = record {
  distinct = remove-IsDistinct id m.in_flight v.distinct;
  total_bound = omega (arith, length-remove-le id m.in_flight, v.total_bound);
  peer_bound = λ p. omega (arith, count_peer-remove-le p id m.in_flight, v.peer_bound p);
  had_wanted = λ j h.
      ground (arith, lookup-insert id j tt m.have, lookup-remove id j m.wanted, v.had_wanted j);
  had_flight = λ j h.
      ground (arith, lookup-insert id j tt m.have, lookup-remove id j m.in_flight, v.had_flight j);
  first_attempts = λ j s h. ground (arith, lookup-remove id j m.in_flight, v.first_attempts j s);
}

pub announce-IsSound :
    (m : InventoryManager) (id : InvId) (peer : SocketAddr)
    → IsSound m
    → IsSound (announce m id peer)
unfolding announce
announce-IsSound m id peer v = record {
  distinct = v.distinct;
  total_bound = v.total_bound;
  peer_bound = v.peer_bound;
  had_wanted = λ j h. ground (arith, lookup-insert id j tt m.wanted, v.had_wanted j h);
  had_flight = v.had_flight;
  first_attempts = v.first_attempts;
}
