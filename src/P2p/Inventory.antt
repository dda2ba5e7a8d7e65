-- ===== src/P2p/Inventory.antt =====
-- src/p2p/inventory.rs: which items are wanted, requested and had. `now` is the reading of the
-- system clock, in seconds; sets and maps are iterated in the order of their lists.
pub mod Codes
pub mod Sound
pub mod Requests
pub mod Timeouts
use btck_rust_node.Common.{
  ℕ, zero, suc, ◌+◌, ◌-◌, Bool, true, false, not, ◌&&◌, Option, none, some, List, [], ◌∷◌, ◌++◌,
  map, length, ltb, leb, ◌==◌, if◌then◌else◌, Key, nat_key, ℕ_discrete, HashSet, contains,
  contains_key, add, lookup, insert, remove, keys, take,
}
use btck_rust_node.Chain.{Txid, BlockHash, SocketAddr}

pub data InvId : Type 0 where
  tx : Txid → InvId
  block : BlockHash → InvId

unfoldable pub InvId-discrete : Discrete InvId
InvId-discrete = hlevel ℕ_discrete

instance abbrev pub inv_id_key : Key InvId
inv_id_key = record { dec = InvId-discrete }

abbrev pub as_tx : InvId → Option Txid
as_tx (tx txid) = some txid
as_tx _ = none

abbrev pub as_block : InvId → Option BlockHash
as_block (block hash) = some hash
as_block _ = none

pub record RequestState : Type 0 where
  pub peer : SocketAddr
  pub requested_at : ℕ
  pub attempts : ℕ

pub record InventoryManager : Type 0 where
  pub wanted : HashSet InvId
  pub in_flight : List (InvId × RequestState)
  pub have : HashSet InvId
  pub announced : List (InvId × HashSet SocketAddr)
  pub request_timeout : ℕ
  pub max_per_peer : ℕ
  pub max_in_flight : ℕ

unfoldable pub new_inventory : InventoryManager
new_inventory = record {
  wanted = [];
  in_flight = [];
  have = [];
  announced = [];
  request_timeout = 120;
  max_per_peer = 16;
  max_in_flight = 256;
}

unfoldable pub want : InventoryManager → InvId → InventoryManager
want m id =
    if not (contains id m.have) && not (contains_key id m.in_flight)
    then record m { wanted = add id m.wanted }
    else m

unfoldable pub mark_received : InventoryManager → InvId → InventoryManager
mark_received m id = record m {
  wanted = remove id m.wanted;
  in_flight = remove id m.in_flight;
  have = add id m.have;
}

-- `entry(id).or_insert_with(HashSet::new)`
unfoldable pub announcers : InventoryManager → InvId → HashSet SocketAddr
announcers m id = elim (lookup id m.announced) [ none ↦ [] | some peers ↦ peers ]

unfoldable pub announce : InventoryManager → InvId → SocketAddr → InventoryManager
announce m id peer = record m {
  announced = insert id (add peer (announcers m id)) m.announced;
  wanted = if not (contains id m.have) then add id m.wanted else m.wanted;
}

-- The requests to a peer that are in flight.
unfoldable pub count_peer : SocketAddr → List (InvId × RequestState) → ℕ
count_peer p [] = 0
count_peer p ((id, s) ∷ m) = let rest = count_peer p m in if s.peer == p then suc rest else rest

unfoldable pub announced_by : List (InvId × HashSet SocketAddr) → InvId → SocketAddr → Bool
announced_by announced id peer = elim (lookup id announced) [
  | none ↦ false
  | some peers ↦ contains peer peers
]

-- The selection loop of `get_requests` over the wanted items.
unfoldable pub select : InventoryManager → SocketAddr → ℕ → List InvId → List InvId → List InvId
select m peer room requests [] = requests
select m peer room requests (id ∷ ids) =
    let next =
      select m peer room
        (if announced_by m.announced id peer then requests ++ id ∷ [] else requests) ids in
    if leb room (length requests)
    then requests
    else (if leb m.max_in_flight (length m.in_flight + length requests) then requests else next)

-- The items are taken off the wanted set and put in flight.
unfoldable pub mark_requested : SocketAddr → ℕ → List InvId → InventoryManager → InventoryManager
mark_requested peer now [] m = m
mark_requested peer now (id ∷ ids) m = mark_requested peer now ids (record m {
  wanted = remove id m.wanted;
  in_flight = insert id (record { peer = peer; requested_at = now; attempts = 1 }) m.in_flight;
})

unfoldable pub get_requests : InventoryManager → SocketAddr → ℕ → InventoryManager × List InvId
get_requests m peer now =
    let current = count_peer peer m.in_flight in
    if leb m.max_in_flight (length m.in_flight)
    then (m, [])
    else (if leb m.max_per_peer current
        then (m, [])
        else (let requests = select m peer (m.max_per_peer - current) [] (keys m.wanted) in
            (mark_requested peer now requests m, requests)))

-- A request from the future counts as fresh.
unfoldable pub timed_out : ℕ → ℕ → List (InvId × RequestState) → List (InvId × ℕ)
timed_out now timeout [] = []
timed_out now timeout ((id, s) ∷ m) =
    let rest = timed_out now timeout m in
    if ltb timeout (now - s.requested_at) then (id, s.attempts) ∷ rest else rest

unfoldable pub give_up : List (InvId × ℕ) → InventoryManager → InventoryManager
give_up [] m = m
give_up ((id, attempts) ∷ rest) m = give_up rest (record m {
  in_flight = remove id m.in_flight;
  wanted = if ltb attempts 3 then add id m.wanted else m.wanted;
})

unfoldable pub check_timeouts : InventoryManager → ℕ → InventoryManager × List InvId
check_timeouts m now =
    let m' = give_up (timed_out now m.request_timeout m.in_flight) m in (m', keys m'.wanted)

abbrev pub wanted_count : InventoryManager → ℕ
wanted_count m = length m.wanted

abbrev pub in_flight_count : InventoryManager → ℕ
in_flight_count m = length m.in_flight

abbrev pub has_item : InventoryManager → InvId → Bool
has_item m id = contains id m.have

unfoldable pub remove_each : List InvId → HashSet InvId → HashSet InvId
remove_each [] s = s
remove_each (id ∷ ids) s = remove_each ids (remove id s)

unfoldable pub prune_have : InventoryManager → ℕ → InventoryManager
prune_have m keep =
    if ltb keep (length m.have)
    then record m { have = remove_each (take (length m.have - keep) (keys m.have)) m.have }
    else m
