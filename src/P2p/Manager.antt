-- ===== src/P2p/Manager.antt =====
-- `P2PManager` of src/p2p/manager.rs. `add_peer` lets go of its lock before it connects, so it is two
-- steps here: the check of the limit, and what follows the attempt to connect. `connecting` are the
-- addresses between the two.
pub mod Runs
mod Tests
use btck_rust_node.Common.{
  ℕ, Bool, true, false, List, [], ◌∷◌, length, leb, ◌==◌, if◌then◌else◌, nat_key, add, remove,
  HashSet, ◌<◌, Has,
}
use btck_rust_node.Common.Int.{ℤ, pos}
use btck_rust_node.Chain.{Txid, BlockHash, SocketAddr}
use btck_rust_node.P2p.Inventory.{
  InventoryManager, new_inventory, want, mark_received, wanted_count, in_flight_count, tx, block,
  InvId,
}

pub record P2pManager : Type 0 where
  pub peers : HashSet SocketAddr
  pub inventory : InventoryManager
  pub block_height : ℤ
  pub max_peers : ℕ
  pub connecting : List SocketAddr

unfoldable pub new_p2p : P2pManager
new_p2p = record {
  peers = [];
  inventory = new_inventory;
  block_height = pos 0;
  max_peers = 125;
  connecting = [];
}

-- `add_peer` up to the call of `Peer::connect`, or to its end if there are enough peers.
unfoldable pub start_add : P2pManager → SocketAddr → P2pManager
start_add m addr =
    if leb m.max_peers (length m.peers) then m else record m { connecting = addr ∷ m.connecting }

-- One call that is connecting to an address goes on.
unfoldable pub leave : SocketAddr → List SocketAddr → List SocketAddr
leave addr [] = []
leave addr (a ∷ rest) = let later = leave addr rest in if a == addr then rest else a ∷ later

-- `add_peer` after `Peer::connect`, which succeeded or not.
unfoldable pub end_add : P2pManager → SocketAddr → Bool → P2pManager
end_add m addr succeeded =
    let left = record m { connecting = leave addr m.connecting } in
    if succeeded then record left { peers = add addr m.peers } else left

unfoldable pub remove_peer : P2pManager → SocketAddr → P2pManager
remove_peer m addr = record m { peers = remove addr m.peers }

unfoldable pub peer_count : P2pManager → ℕ
peer_count m = length m.peers

unfoldable pub request_tx : P2pManager → Txid → P2pManager
request_tx m txid = record m { inventory = want m.inventory (tx txid) }

unfoldable pub request_block : P2pManager → BlockHash → P2pManager
request_block m hash = record m { inventory = want m.inventory (block hash) }

unfoldable pub mark_tx_received : P2pManager → Txid → P2pManager
mark_tx_received m txid = record m { inventory = mark_received m.inventory (tx txid) }

unfoldable pub mark_block_received : P2pManager → BlockHash → P2pManager
mark_block_received m hash = record m { inventory = mark_received m.inventory (block hash) }

unfoldable pub update_block_height : P2pManager → ℤ → P2pManager
update_block_height m height = record m { block_height = height }

unfoldable pub get_inventory_stats : P2pManager → ℕ × ℕ
get_inventory_stats m = (wanted_count m.inventory, in_flight_count m.inventory)

-- A step of one of the tasks, of which less than `c` are connecting when another begins to.
pub data Step (c : ℕ) : P2pManager → P2pManager → Type 0 where
  starts :
      {m : P2pManager} (addr : SocketAddr) → length m.connecting < c → Step c m (start_add m addr)
  ends :
      {m : P2pManager} (addr : SocketAddr) (succeeded : Bool)
      → Has addr m.connecting
      → Step c m (end_add m addr succeeded)
  removes : {m : P2pManager} (addr : SocketAddr) → Step c m (remove_peer m addr)
  wants_tx : {m : P2pManager} (txid : Txid) → Step c m (request_tx m txid)
  wants_block : {m : P2pManager} (hash : BlockHash) → Step c m (request_block m hash)
  gets_tx : {m : P2pManager} (txid : Txid) → Step c m (mark_tx_received m txid)
  gets_block : {m : P2pManager} (hash : BlockHash) → Step c m (mark_block_received m hash)
  grows : {m : P2pManager} (height : ℤ) → Step c m (update_block_height m height)

-- The managers that steps in some order lead to.
pub data Reachable (c : ℕ) : P2pManager → Type 0 where
  begins : Reachable c new_p2p
  steps : {m m' : P2pManager} → Reachable c m → Step c m m' → Reachable c m'
