-- ===== src/P2p/Inventory/Timeouts.antt =====
-- `check_timeouts` and `prune_have` of src/p2p/inventory.rs, and any sequence of calls.
use btck_rust_node.Common.{
  ℕ, ◌-◌, ◌<◌, ◌≡◌, refl, sym, ap, ◌∙◌, true, none, some, List, [], ◌∷◌, length, ltb, arith, lookup,
  remove, lookup-insert, lookup-remove, length-remove-le, Bool-cases, Option-cases, All-pairs,
  remove-IsDistinct, lt→ltb, ◌⊎◌, inl, inr, some-eq, none-some, keys, All, if_pos, if_neg, Has,
}
use btck_rust_node.P2p.Inventory.{
  InvId, InvId-discrete, inv_id_key, RequestState, InventoryManager, new_inventory, want,
  mark_received, announce, get_requests, timed_out, give_up, check_timeouts, prune_have,
  remove_each,
}
use btck_rust_node.Chain.{SocketAddr}
use btck_rust_node.P2p.Inventory.Sound.{
  IsSound, count_peer-remove-le, new_inventory-IsSound, want-IsSound, mark_received-IsSound,
  announce-IsSound,
}
use btck_rust_node.P2p.Inventory.Requests.{get_requests-IsSound}

-- What holds of the requests in flight holds of those that time out.
timed_out-All :
    (P : InvId → ℕ → Type 0) (now timeout : ℕ) (f : List (InvId × RequestState))
    → All (λ (p : InvId × RequestState). P p.0 p.1.attempts) f
    → All (λ (p : InvId × ℕ). P p.0 p.1) (timed_out now timeout f)
unfolding timed_out
timed_out-All P now timeout [] h = tt
timed_out-All P now timeout ((id, s) ∷ f) h =
    elim (Bool-cases (ltb timeout (now - s.requested_at))) [
      | inl a ↦ rw (a, timed_out) (h.0, timed_out-All P now timeout f h.1)
      | inr a ↦ rw (a, timed_out) (timed_out-All P now timeout f h.1)
    ]

-- A request that is older than the timeout is among them.
timed_out-Has :
    (now timeout : ℕ) (f : List (InvId × RequestState)) (x : InvId) (s : RequestState)
    → lookup x f ≡ some s
    → timeout < now - s.requested_at
    → Has x (keys (timed_out now timeout f))
unfolding timed_out lookup
timed_out-Has now timeout [] x s h late = absurd (none-some refl h)
timed_out-Has now timeout ((id, t) ∷ f) x s h late = elim (InvId-discrete id x) [
  | yes same ↦
      let e : t ≡ s = some-eq (sym (if_pos (InvId-discrete id x) same _ _) ∙ h) in
      let a : ltb timeout (now - t.requested_at) ≡ true =
        ap (λ r. ltb timeout (now - r.requested_at)) e ∙ lt→ltb _ _ late in
      rw (a, timed_out) (inl same)
  | no ne ↦
      let h' : lookup x f ≡ some s = sym (if_neg (InvId-discrete id x) ne _ _) ∙ h in
      let ih = timed_out-Has now timeout f x s h' late in
      elim (Bool-cases (ltb timeout (now - t.requested_at))) [
        | inl a ↦ rw (a, timed_out) (inr ih)
        | inr a ↦ rw (a, timed_out) ih
      ]
]

give_up-IsSound :
    (l : List (InvId × ℕ)) (m : InventoryManager)
    → IsSound m
    → All (λ (p : InvId × ℕ). lookup p.0 m.have ≡ none) l
    → IsSound (give_up l m)
unfolding give_up
give_up-IsSound [] m v h = v
give_up-IsSound ((id, attempts) ∷ l) m v h =
    give_up-IsSound l _
      (record {
        distinct = remove-IsDistinct id m.in_flight v.distinct;
        total_bound = omega (arith, length-remove-le id m.in_flight, v.total_bound);
        peer_bound = λ p. omega (arith, count_peer-remove-le p id m.in_flight, v.peer_bound p);
        had_wanted = λ j a. ground (arith, lookup-insert id j tt m.wanted, v.had_wanted j a, h.0);
        had_flight = λ j a. ground (arith, lookup-remove id j m.in_flight, v.had_flight j a);
        first_attempts =
            λ j s a. ground (arith, lookup-remove id j m.in_flight, v.first_attempts j s);
      })
      h.1

-- An item in flight is not at hand.
flying_not_had :
    (m : InventoryManager) (x : InvId) (s : RequestState)
    → IsSound m
    → lookup x m.in_flight ≡ some s
    → lookup x m.have ≡ none
flying_not_had m x s v h = elim (Option-cases (lookup x m.have)) [
  | inl n ↦ n
  | inr (u, y) ↦ absurd (none-some (v.had_flight x y) h)
]

pub check_timeouts-IsSound :
    (m : InventoryManager) (now : ℕ) → IsSound m → IsSound (check_timeouts m now).0
unfolding check_timeouts
check_timeouts-IsSound m now v = give_up-IsSound (timed_out now m.request_timeout m.in_flight) m v (
    timed_out-All (λ (x : InvId) (n : ℕ). lookup x m.have ≡ none) now m.request_timeout m.in_flight
      (All-pairs (λ (x : InvId) (s : RequestState). lookup x m.have ≡ none) m.in_flight v.distinct
        (λ x s h. flying_not_had m x s v h)))

-- Of what gives up after a first attempt, all is wanted again.
give_up-Has :
    (l : List (InvId × ℕ)) (m : InventoryManager) (x : InvId)
    → All (λ (p : InvId × ℕ). p.1 ≡ 1) l
    → Has x (keys l) ⊎ ((lookup x m.wanted ≡ some tt) × (lookup x m.in_flight ≡ none))
    → (lookup x (give_up l m).wanted ≡ some tt) × (lookup x (give_up l m).in_flight ≡ none)
unfolding give_up
give_up-Has [] m x h (inl a) = absurd a
give_up-Has [] m x h (inr b) = b
give_up-Has ((id, attempts) ∷ l) m x h g = give_up-Has l _ x h.1 (elim (InvId-discrete id x) [
  | yes same ↦ inr (
    ground (arith, lookup-insert id x tt m.wanted, h.0),
    lookup-remove id x m.in_flight ∙ if_pos (InvId-discrete id x) same _ _,
  )
  | no ne ↦ elim g [
    | inl a ↦ elim a [ inl same ↦ absurd (ne same) | inr later ↦ inl later ]
    | inr b ↦ inr (
      ground (arith, lookup-insert id x tt m.wanted, b.0),
      lookup-remove id x m.in_flight ∙ if_neg (InvId-discrete id x) ne _ _ ∙ b.1,
    )
  ]
])

-- A manager in order asks again for what timed out.
retried :
    (m : InventoryManager) (now : ℕ) (x : InvId) (s : RequestState)
    → IsSound m
    → lookup x m.in_flight ≡ some s
    → m.request_timeout < now - s.requested_at
    → (lookup x (check_timeouts m now).0.wanted ≡ some tt)
      × (lookup x (check_timeouts m now).0.in_flight ≡ none)
unfolding check_timeouts
retried m now x s v h late =
    give_up-Has (timed_out now m.request_timeout m.in_flight) m x
      (timed_out-All (λ (y : InvId) (n : ℕ). n ≡ 1) now m.request_timeout m.in_flight
        (All-pairs (λ (y : InvId) (t : RequestState). t.attempts ≡ 1) m.in_flight v.distinct
          v.first_attempts))
      (inl (timed_out-Has now m.request_timeout m.in_flight x s h late))

-- Pruning only forgets.
lookup-remove_each :
    (ids : List InvId) (s : List (InvId × Unit {0})) (x : InvId)
    → lookup x (remove_each ids s) ≡ some tt
    → lookup x s ≡ some tt
unfolding remove_each
lookup-remove_each [] s x h = h
lookup-remove_each (id ∷ ids) s x h =
    let h' = lookup-remove_each ids (remove id s) x h in ground (arith, lookup-remove id x s)

pub prune_have-IsSound : (m : InventoryManager) (keep : ℕ) → IsSound m → IsSound (prune_have m keep)
unfolding prune_have
prune_have-IsSound m keep v = elim (Bool-cases (ltb keep (length m.have))) [
  | inr a ↦ rw (a, prune_have) v
  | inl a ↦
      rw (a, prune_have)
        (record {
          distinct = v.distinct;
          total_bound = v.total_bound;
          peer_bound = v.peer_bound;
          had_wanted = λ j h. v.had_wanted j (lookup-remove_each _ m.have j h);
          had_flight = λ j h. v.had_flight j (lookup-remove_each _ m.have j h);
          first_attempts = v.first_attempts;
        })
]

-- The calls of the manager.
pub data Call : Type 0 where
  wants : InvId → Call
  receives : InvId → Call
  announces : InvId → SocketAddr → Call
  requests : SocketAddr → ℕ → Call
  times_out : ℕ → Call
  prunes : ℕ → Call

unfoldable pub step : InventoryManager → Call → InventoryManager
step m (wants id) = want m id
step m (receives id) = mark_received m id
step m (announces id peer) = announce m id peer
step m (requests peer now) = (get_requests m peer now).0
step m (times_out now) = (check_timeouts m now).0
step m (prunes keep) = prune_have m keep

unfoldable pub run : List Call → InventoryManager → InventoryManager
run [] m = m
run (c ∷ cs) m = run cs (step m c)

step-IsSound : (m : InventoryManager) (c : Call) → IsSound m → IsSound (step m c)
unfolding step
step-IsSound m (wants id) v = want-IsSound m id v
step-IsSound m (receives id) v = mark_received-IsSound m id v
step-IsSound m (announces id peer) v = announce-IsSound m id peer v
step-IsSound m (requests peer now) v = get_requests-IsSound m peer now v
step-IsSound m (times_out now) v = check_timeouts-IsSound m now v
step-IsSound m (prunes keep) v = prune_have-IsSound m keep v

run-IsSound : (cs : List Call) (m : InventoryManager) → IsSound m → IsSound (run cs m)
unfolding run
run-IsSound [] m v = v
run-IsSound (c ∷ cs) m v = run-IsSound cs (step m c) (step-IsSound m c v)

-- After any calls on a new manager: no more requests are in flight than the two limits allow, in
-- total and for each peer; what is at hand is neither wanted nor in flight; and every request in
-- flight counts as its item's first attempt.
pub run-new_inventory-IsSound : (cs : List Call) → IsSound (run cs new_inventory)
run-new_inventory-IsSound cs = run-IsSound cs new_inventory new_inventory-IsSound

-- After any calls on a new manager, timeouts and renewed requests among them: what was requested
-- longer ago than the timeout is, after `check_timeouts`, wanted again and no longer in flight.
pub check_timeouts_retry :
    (cs : List Call) (now : ℕ) (x : InvId) (s : RequestState)
    → lookup x (run cs new_inventory).in_flight ≡ some s
    → (run cs new_inventory).request_timeout < now - s.requested_at
    → (lookup x (check_timeouts (run cs new_inventory) now).0.wanted ≡ some tt)
      × (lookup x (check_timeouts (run cs new_inventory) now).0.in_flight ≡ none)
check_timeouts_retry cs now x s h late =
    retried (run cs new_inventory) now x s (run-new_inventory-IsSound cs) h late
