-- ===== src/P2p/Headers/Events.antt =====
-- The handlers of `event_loop` (src/p2p/legacy.rs), one round of which is a sequence of these: `now`
-- is the reading of the clock in seconds. `none` is a panic. The keys of a hash map come in an order
-- that the code leaves open; the model takes that of the association list.
use btck_rust_node.Common.{
  ℕ, ◌+◌, ◌-◌, Bool, false, not, ◌&&◌, Option, none, some, List, [], ◌∷◌, ◌++◌, length, ltb, ◌==◌,
  if◌then◌else◌, nat_key, remove, keys, contains,
}
use btck_rust_node.Common.Int.{ℤ, pos, negsuc}
use btck_rust_node.Chain.{BlockHash, SocketAddr}
use btck_rust_node.P2p.Downloader.{push_many, complete, reassign_timeouts}
use btck_rust_node.P2p.Headers.{
  BlockHeader, PeerManager, Message, get_headers, process, bootstrap, extend_headers, build_locator,
  check_headers_sync_complete, request_blocks, add_outbound,
}

-- The manager with the variable `last_headers_ts`, and what was sent.
pub record Handled : Type 0 where
  pub manager : PeerManager
  pub last_headers_ts : ℕ
  pub sent : List Message

unfoldable pub request_headers : PeerManager → SocketAddr → ℕ → Option Handled
request_headers m to ts =
    if contains to m.peers
    then elim (build_locator m) [
      | none ↦ none
      | some loc ↦ some (record {
        manager = record m { last_locator = loc };
        last_headers_ts = ts;
        sent = get_headers to loc ∷ [];
      })
    ]
    else some (record { manager = m; last_headers_ts = ts; sent = [] })

-- MAX_HEADERS_PER_MSG, and IMMEDIATE_REQ_TIMEOUT - INITIAL_REREQ_SECS
abbrev max_headers_per_msg : ℕ
max_headers_per_msg = 2000

abbrev immediate_req_grace : ℕ
immediate_req_grace = 58

-- The peers other than the one that is stuck.
unfoldable pub others : SocketAddr → List SocketAddr → List SocketAddr
others addr [] = []
others addr (a ∷ rs) = let rest = others addr rs in if a == addr then rest else a ∷ rest

-- The sync may be complete, and then blocks are requested.
unfoldable pub finish_batch : PeerManager → SocketAddr → ℕ → Handled
finish_batch m addr now =
    let checked = check_headers_sync_complete m in
    if checked.headers_synced
    then record {
      manager = (request_blocks checked addr now).0;
      last_headers_ts = now;
      sent = (request_blocks checked addr now).1;
    }
    else record { manager = checked; last_headers_ts = now; sent = [] }

-- A full batch without a new header: another sync peer.
unfoldable pub switch_peer : PeerManager → List SocketAddr → ℕ → Option Handled
switch_peer m [] now =
    some (record { manager = record m { sync_peer = none }; last_headers_ts = now; sent = [] })
switch_peer m (a ∷ rs) now = request_headers (record m { sync_peer = some a }) a now

unfoldable pub on_headers : SocketAddr → List BlockHeader → ℕ → PeerManager → Option Handled
on_headers addr h now m =
    if length h == 0 then some (finish_batch m addr now) else elim (extend_headers h m) [
      | none ↦ none
      | some r ↦
          if length h == max_headers_per_msg
          then (if r.1 == 0
              then switch_peer r.0 (others addr (keys r.0.peers)) now
              else request_headers r.0 addr (now + immediate_req_grace))
          else some (finish_batch r.0 addr now)
    ]

-- An entry of an `Inv` message: a block, of either kind, or something else.
pub data Inventory : Type 0 where
  block_inv : BlockHash → Inventory
  other_inv : Inventory

unfoldable pub needed : PeerManager → List Inventory → List BlockHash
needed m [] = []
needed m (other_inv ∷ inv) = needed m inv
needed m (block_inv h ∷ inv) =
    let rest = needed m inv in if contains h m.have_header then h ∷ rest else rest

unfoldable pub on_inv : SocketAddr → List Inventory → ℕ → PeerManager → PeerManager × List Message
on_inv addr inv now m =
    if m.headers_synced
    then request_blocks (record m { downloader = push_many m.downloader (needed m inv) }) addr now
    else (m, [])

unfoldable pub on_block : SocketAddr → BlockHash → ℕ → PeerManager → PeerManager × List Message
on_block addr h now m =
    let asked = request_blocks (record m { downloader = complete m.downloader h }) addr now in
    if m.headers_synced
    then (asked.0, asked.1 ++ (if m.block_tx then process h ∷ [] else []))
    else (m, [])

-- `for h in self.downloader.reassign_timeouts() { self.downloader.push_many([h]); }`
unfoldable pub requeue : ℕ → PeerManager → PeerManager
requeue now m = record m {
  downloader =
      push_many (reassign_timeouts m.downloader now).0 (reassign_timeouts m.downloader now).1;
}

-- The start of a round: without peers there is no sync peer, and the node bootstraps.
unfoldable pub start_round : PeerManager → PeerManager × List Message
start_round m =
    if length m.peers == 0 then (record m { sync_peer = none }, bootstrap ∷ []) else (m, [])

-- A peer whose connection failed is dropped.
unfoldable pub drop_peer : SocketAddr → PeerManager → PeerManager
drop_peer addr m = record m { peers = remove addr m.peers }

-- INITIAL_REREQ_SECS, and STALL_LIMIT
abbrev initial_rereq_secs : ℕ
initial_rereq_secs = 2

abbrev stall_limit : ℕ
stall_limit = 900

unfoldable pub is_genesis_height : ℤ → Bool
is_genesis_height (pos n) = n == 0
is_genesis_height (negsuc n) = false

-- The time without an answer after which the headers are asked for again.
unfoldable pub rereq_after : PeerManager → ℕ
rereq_after m = if is_genesis_height m.header_chain_height then 1 else initial_rereq_secs

-- The periodic request of headers. `duration_since` is zero for a time to come.
unfoldable pub request_timer : ℕ → ℕ → PeerManager → Option Handled
request_timer ts now m =
    let idle : Handled = record { manager = m; last_headers_ts = ts; sent = [] } in
    if m.headers_synced then some idle else elim m.sync_peer [
      | none ↦
          if ltb (length m.peers) 3 && ltb 10 (now - ts)
          then some (record idle { last_headers_ts = now; sent = bootstrap ∷ [] })
          else some idle
      | some sync_addr ↦
          if contains sync_addr m.peers && ltb (rereq_after m) (now - ts)
          then request_headers m sync_addr now
          else some idle
    ]

-- A sync peer that stalls is dropped.
unfoldable pub drop_stalled : ℕ → ℕ → PeerManager → PeerManager × List Message
drop_stalled ts now m =
    if not m.headers_synced && ltb stall_limit (now - ts)
    then (
      elim m.sync_peer [
        | none ↦ m
        | some sync_addr ↦ record m { peers = remove sync_addr m.peers; sync_peer = none }
      ],
      bootstrap ∷ [],
    )
    else (m, [])

-- The steps of the rounds of `event_loop`, in the order in which the messages come.
pub data Event : Type 0 where
  adds_outbound : SocketAddr → ℤ → Bool → ℕ → Event
  headers : SocketAddr → List BlockHeader → ℕ → Event
  inv : SocketAddr → List Inventory → ℕ → Event
  block : SocketAddr → BlockHash → ℕ → Event
  starts_round : Event
  reassigns : ℕ → Event
  drops : SocketAddr → Event
  asks_again : ℕ → Event
  stalls : ℕ → Event

unfoldable pub handled : ℕ → PeerManager × List Message → Option Handled
handled ts r = some (record { manager = r.0; last_headers_ts = ts; sent = r.1 })

unfoldable pub step : Event → ℕ → PeerManager → Option Handled
step (adds_outbound addr height network now) ts m =
    handled ts (add_outbound m addr height network now)
step (headers addr h now) ts m = on_headers addr h now m
step (inv addr entries now) ts m = handled ts (on_inv addr entries now m)
step (block addr h now) ts m = handled ts (on_block addr h now m)
step starts_round ts m = handled ts (start_round m)
step (reassigns now) ts m = handled ts (requeue now m, [])
step (drops addr) ts m = handled ts (drop_peer addr m, [])
step (asks_again now) ts m = request_timer ts now m
step (stalls now) ts m = handled ts (drop_stalled ts now m)

-- Events in a row: `none` once one has panicked.
unfoldable pub run : List Event → ℕ → PeerManager → Option PeerManager
run [] ts m = some m
run (e ∷ es) ts m = elim (step e ts m) [ none ↦ none | some r ↦ run es r.last_headers_ts r.manager ]
