-- ===== src/P2p/Headers.antt =====
-- Headers-first sync of `PeerManager` (src/p2p/legacy.rs). A connection is its address in `peers`, and
-- `checkpoint` is what `get_checkpoint` of src/chainparams.rs answers. The writes to the log are left
-- out, and those to the headers file, whose failure the code only logs, are in P2p/HeadersFile;
-- `block_tx` says whether there is a block processor.
pub mod Events
pub mod Chain
pub mod Tree
pub mod Depths
pub mod Locator
pub mod Phases
pub mod Rooted
pub mod Runs
pub mod Order
use mathlib.Core.Option
use btck_rust_node.Common.{
  ℕ, zero, suc, ◌+◌, ◌-◌, ◌*◌, ◌^◌, ◌≡◌, Bool, true, false, not, ◌&&◌, ◌||◌, Option, none, some,
  List, [], ◌∷◌, ◌++◌, length, get_elem?, drop, ltb, leb, ◌==◌, if◌then◌else◌, nat_key, lookup,
  insert, remove, HashSet, contains, add, contains_key,
}
use btck_rust_node.Common.Int.{ℤ, pos, negsuc}
use btck_rust_node.Common.Words.{add64, as_i32, as_u32, as_u64, add_i32, sub_i32, lt_ℤ, le_ℤ}
use btck_rust_node.Chain.{BlockHash, SocketAddr}
use btck_rust_node.P2p.Downloader.{
  Downloader, new_downloader, push_many, poll_assign, complete, reassign_timeouts,
}

-- A header, as far as the sync reads it.
pub record BlockHeader : Type 0 where
  pub block_hash : BlockHash
  pub prev_blockhash : BlockHash

pub record PeerManager : Type 0 where
  pub peers : HashSet SocketAddr
  pub downloader : Downloader
  pub prev_map : List (BlockHash × BlockHash)
  pub have_header : HashSet BlockHash
  pub best_header_tip : BlockHash
  pub recent_chain : List BlockHash
  pub last_locator : List BlockHash
  pub start_height : ℤ
  pub headers_synced : Bool
  pub peer_heights : List (SocketAddr × ℤ)
  pub best_known_height : ℤ
  pub header_chain_height : ℤ
  pub header_chain : List BlockHeader
  pub sync_peer : Option SocketAddr
  pub checkpoint : ℕ → Option BlockHash
  pub block_tx : Bool

-- GLOBAL_INFLIGHT, PER_PEER_INFLIGHT
abbrev global_inflight : ℕ
global_inflight = 16

abbrev per_peer_inflight : ℕ
per_peer_inflight = 4

-- The loop of `with_start_height` over the headers read from disk.
unfoldable pub load : List BlockHeader → PeerManager → PeerManager
load [] m = m
load (header ∷ hs) m =
    let h = header.block_hash in
    load hs (record m {
      have_header = add h m.have_header;
      prev_map = insert h header.prev_blockhash m.prev_map;
      recent_chain = m.recent_chain ++ h ∷ [];
      best_header_tip = h;
    })

-- The blocks that are queued: `recent_chain.iter().skip((start_height as usize) + 1)`.
unfoldable pub blocks_to_download : ℤ → List BlockHash → List BlockHash
blocks_to_download start_height recent_chain = drop (add64 (as_u64 start_height) 1) recent_chain

-- The fields of `with_start_height` before the headers from disk are gone through.
unfoldable pub fresh : BlockHash → (ℕ → Option BlockHash) → List BlockHeader → ℤ → PeerManager
fresh g checkpoint loaded_headers start_height = record {
  peers = [];
  downloader = new_downloader global_inflight per_peer_inflight;
  prev_map = [];
  have_header = add g [];
  best_header_tip = g;
  recent_chain = g ∷ [];
  last_locator = g ∷ [];
  start_height = start_height;
  headers_synced = not (length loaded_headers == 0);
  peer_heights = [];
  best_known_height = pos 0;
  header_chain_height = as_i32 (length loaded_headers);
  header_chain = loaded_headers;
  sync_peer = none;
  checkpoint = checkpoint;
  block_tx = false;
}

unfoldable pub with_start_height :
    BlockHash → (ℕ → Option BlockHash) → List BlockHeader → ℤ → PeerManager
with_start_height g checkpoint loaded_headers start_height =
    let loaded = load loaded_headers (fresh g checkpoint loaded_headers start_height) in
    if length loaded_headers == 0 then loaded else record loaded {
      downloader =
          push_many loaded.downloader (blocks_to_download start_height loaded.recent_chain);
    }

-- The setter `with_block_processor`: the processor's task has a channel from now on.
unfoldable pub with_block_processor : PeerManager → PeerManager
with_block_processor m = record m { block_tx = true }

-- `recent_chain.last()`
unfoldable pub last : List BlockHash → Option BlockHash
last [] = none
last (h ∷ hs) = elim (last hs) [ none ↦ some h | some l ↦ some l ]

-- A header that connects is stored.
unfoldable pub push_header : BlockHeader → PeerManager → PeerManager
push_header hh m =
    let h = hh.block_hash in
    record m {
      prev_map = insert h hh.prev_blockhash m.prev_map;
      have_header = add h m.have_header;
      recent_chain = m.recent_chain ++ h ∷ [];
      header_chain = m.header_chain ++ hh ∷ [];
      header_chain_height = add_i32 m.header_chain_height (pos 1);
    }

-- Whether the checkpoint at the next height, if there is one, is the header's hash.
unfoldable pub passes_checkpoint : BlockHash → PeerManager → Bool
passes_checkpoint h m = elim (m.checkpoint (as_u32 (add_i32 m.header_chain_height (pos 1)))) [
  | none ↦ true
  | some c ↦ h == c
]

-- The loop of `extend_headers`, from the processing tip and the count of headers added.
unfoldable pub extend_loop : List BlockHeader → BlockHash → ℕ → PeerManager → PeerManager × ℕ
extend_loop [] tip added m = (m, added)
extend_loop (hh ∷ hs) tip added m =
    let h = hh.block_hash in
    let skip = extend_loop hs h added m in
    let more = extend_loop hs h (add64 added 1) (push_header hh m) in
    if contains h m.have_header
    then skip
    else (if hh.prev_blockhash == tip
        then (if passes_checkpoint h m then more else (m, added))
        else (m, added))

-- The last line of `extend_headers`: the tip is the end of the chain.
unfoldable pub set_tip : PeerManager → PeerManager
set_tip m = elim (last m.recent_chain) [ none ↦ m | some tip ↦ record m { best_header_tip = tip } ]

-- `none` is the panic of `unwrap` on an empty chain.
unfoldable pub extend_headers : List BlockHeader → PeerManager → Option (PeerManager × ℕ)
extend_headers [] m = some (m, 0)
extend_headers (hh ∷ hs) m = elim (last m.recent_chain) [
  | none ↦ none
  | some current_tip ↦ let r = extend_loop (hh ∷ hs) current_tip 0 m in some (set_tip r.0, r.1)
]

-- The loop of `build_locator`, from what is left of the 32 places: `none` is an index out of range.
unfoldable pub locator_loop : ℕ → List BlockHash → ℕ → ℕ → ℕ → Option (List BlockHash)
locator_loop zero chain idx step len = some []
locator_loop (suc left) chain idx step len =
    let step' = if leb 10 (len + 1) then step * 2 else step in
    let rest = locator_loop left chain (idx - step') step' (len + 1) in
    elim (get_elem? chain idx) [
      | none ↦ none
      | some h ↦ if idx == 0 then some (h ∷ []) else Option.map (◌∷◌ h) rest
    ]

-- Genesis is added if the loop has not reached it.
unfoldable pub close_locator : List BlockHash → List BlockHash → Option (List BlockHash)
close_locator chain loc = elim (last loc) [
  | none ↦ none
  | some end ↦ elim (get_elem? chain 0) [
    | none ↦ none
    | some genesis ↦ some (if end == genesis then loc else loc ++ genesis ∷ [])
  ]
]

unfoldable pub build_locator : PeerManager → Option (List BlockHash)
build_locator m = elim (locator_loop 32 m.recent_chain (length m.recent_chain - 1) 1 0) [
  | none ↦ none
  | some loc ↦ close_locator m.recent_chain loc
]

-- HEADER_SYNC_THRESHOLD
abbrev header_sync_threshold : ℕ
header_sync_threshold = 144

unfoldable pub queue_blocks_from_headers : PeerManager → PeerManager
queue_blocks_from_headers m = record m {
  downloader = push_many m.downloader (blocks_to_download m.start_height m.recent_chain);
}

unfoldable pub check_headers_sync_complete : PeerManager → PeerManager
check_headers_sync_complete m =
    if m.headers_synced
    then m
    else (if lt_ℤ (pos 0) m.best_known_height
          && le_ℤ (sub_i32 m.best_known_height (pos header_sync_threshold)) m.header_chain_height
        then queue_blocks_from_headers (record m { headers_synced = true })
        else m)

-- What the node does, as far as the sync decides it: what it sends, the blocks that it hands to the
-- block processor, and the calls of `bootstrap`.
pub data Message : Type 0 where
  get_headers : SocketAddr → List BlockHash → Message
  get_data : SocketAddr → List BlockHash → Message
  process : BlockHash → Message
  bootstrap : Message

-- `GetData` for what `poll_assign` gives the peer, if anything and if the peer is there.
unfoldable pub request_blocks : PeerManager → SocketAddr → ℕ → PeerManager × List Message
request_blocks m addr now =
    let assigned = poll_assign m.downloader addr now in
    (
      record m { downloader = assigned.0 },
      if length assigned.1 == 0
          then []
          else (if contains addr m.peers then get_data addr assigned.1 ∷ [] else []),
    )

-- `add_outbound` after the handshake gave the peer's height and its service flag NETWORK.
unfoldable pub is_better_sync_peer : PeerManager → ℤ → Bool
is_better_sync_peer m peer_height = elim m.sync_peer [
  | none ↦ true
  | some current_sync ↦ elim (lookup current_sync m.peer_heights) [
    | none ↦ true
    | some current_height ↦ lt_ℤ current_height peer_height
  ]
]

unfoldable pub select_sync_peer : PeerManager → SocketAddr → ℤ → Bool → PeerManager
select_sync_peer m addr peer_height has_network_service =
    if has_network_service && lt_ℤ (pos 0) peer_height
    then (if is_better_sync_peer m peer_height then record m { sync_peer = some addr } else m)
    else m

-- The peer's height is noted, and the peer is stored.
unfoldable pub note_peer : PeerManager → SocketAddr → ℤ → PeerManager
note_peer m addr peer_height = record m {
  peer_heights = insert addr peer_height m.peer_heights;
  best_known_height =
      if lt_ℤ m.best_known_height peer_height then peer_height else m.best_known_height;
  peers = add addr m.peers;
}

unfoldable pub add_outbound : PeerManager → SocketAddr → ℤ → Bool → ℕ → PeerManager × List Message
add_outbound m addr peer_height has_network_service now =
    let noted = note_peer m addr peer_height in
    if contains addr m.peers
    then (m, [])
    else (if m.headers_synced
        then request_blocks noted addr now
        else (select_sync_peer noted addr peer_height has_network_service, []))
