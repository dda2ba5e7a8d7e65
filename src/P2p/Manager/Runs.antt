-- ===== src/P2p/Manager/Runs.antt =====
-- The limits of `P2PManager` (src/p2p/manager.rs), whatever the order in which its tasks run.
use btck_rust_node.Common.{
  ℕ, ◌+◌, ◌≡◌, ◌≤◌, refl, inl, inr, List, [], ◌∷◌, length, leb, nat_key, Has, arith, if-elim,
  length-insert-le, length-remove-le,
}
use btck_rust_node.Chain.{SocketAddr}
use btck_rust_node.P2p.Inventory.{tx, block}
use btck_rust_node.P2p.Inventory.Sound.{
  IsSound, new_inventory-IsSound, want-IsSound, mark_received-IsSound,
}
use btck_rust_node.P2p.Manager.{
  P2pManager, new_p2p, start_add, leave, end_add, remove_peer, request_tx, request_block,
  mark_tx_received, mark_block_received, update_block_height, Step, starts, ends, removes, wants_tx,
  wants_block, gets_tx, gets_block, grows, Reachable, begins, steps,
}

length-leave :
    (xs : List SocketAddr) (a : SocketAddr) → Has a xs → length (leave a xs) + 1 ≡ length xs
unfolding leave
length-leave [] a h = elim h [ ]
length-leave (x ∷ xs) a (inl same) = ground arith
length-leave (x ∷ xs) a (inr later) = ground (arith, length-leave xs a later)

-- The inventory is sound, and the peers with those that may still come are at most `c` above 124.
pub record IsLimited (c : ℕ) (m : P2pManager) : Type 0 where
  pub sound : IsSound m.inventory
  pub limit : m.max_peers ≡ 125
  pub few : length m.peers + length m.connecting ≤ 124 + c
  pub few_connecting : length m.connecting ≤ c

Step-IsLimited : {c : ℕ} {m m' : P2pManager} → Step c m m' → IsLimited c m → IsLimited c m'
unfolding start_add end_add remove_peer request_tx request_block mark_tx_received
    mark_block_received update_block_height
Step-IsLimited {c} (starts {m = m} addr free) v =
    if-elim (IsLimited c) (leb m.max_peers (length m.peers)) (λ t. v)
      (λ t. record {
        sound = v.sound;
        limit = v.limit;
        few = ground (arith, v.limit, free);
        few_connecting = omega (arith, free);
      })
Step-IsLimited {c} (ends {m = m} addr succeeded h) v =
    if-elim (IsLimited c) succeeded
      (λ t. record {
        sound = v.sound;
        limit = v.limit;
        few =
            omega
              (arith, v.few, length-leave m.connecting addr h, length-insert-le addr tt m.peers);
        few_connecting = omega (arith, v.few_connecting, length-leave m.connecting addr h);
      })
      (λ t. record {
        sound = v.sound;
        limit = v.limit;
        few = omega (arith, v.few, length-leave m.connecting addr h);
        few_connecting = omega (arith, v.few_connecting, length-leave m.connecting addr h);
      })
Step-IsLimited (removes {m = m} addr) v = record {
  sound = v.sound;
  limit = v.limit;
  few = omega (arith, v.few, length-remove-le addr m.peers);
  few_connecting = v.few_connecting;
}
Step-IsLimited (wants_tx {m = m} txid) v = record {
  sound = want-IsSound m.inventory (tx txid) v.sound;
  limit = v.limit;
  few = v.few;
  few_connecting = v.few_connecting;
}
Step-IsLimited (wants_block {m = m} hash) v = record {
  sound = want-IsSound m.inventory (block hash) v.sound;
  limit = v.limit;
  few = v.few;
  few_connecting = v.few_connecting;
}
Step-IsLimited (gets_tx {m = m} txid) v = record {
  sound = mark_received-IsSound m.inventory (tx txid) v.sound;
  limit = v.limit;
  few = v.few;
  few_connecting = v.few_connecting;
}
Step-IsLimited (gets_block {m = m} hash) v = record {
  sound = mark_received-IsSound m.inventory (block hash) v.sound;
  limit = v.limit;
  few = v.few;
  few_connecting = v.few_connecting;
}
Step-IsLimited (grows height) v = record {
  sound = v.sound;
  limit = v.limit;
  few = v.few;
  few_connecting = v.few_connecting;
}

-- With at most `c` calls of `add_peer` connecting at once, the manager has at most 124 + c peers,
-- in whatever order the calls and their ends come, and its inventory is sound. One call at a time
-- keeps the limit of 125.
pub Reachable-IsLimited : {c : ℕ} {m : P2pManager} → Reachable c m → IsLimited c m
unfolding new_p2p
Reachable-IsLimited begins = record {
  sound = new_inventory-IsSound;
  limit = refl;
  few = omega arith;
  few_connecting = omega arith;
}
Reachable-IsLimited (steps r s) = Step-IsLimited s (Reachable-IsLimited r)
