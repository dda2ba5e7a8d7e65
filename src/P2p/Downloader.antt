-- ===== src/P2p/Downloader.antt =====
-- `Downloader` of src/p2p/legacy.rs: the queue of blocks to download, and those in flight. `now` is
-- the reading of the monotonic clock, in seconds.
pub mod Windows
use btck_rust_node.Common.{
  ℕ, zero, suc, ◌+◌, ◌-◌, Bool, true, false, Option, none, some, List, [], ◌∷◌, ◌++◌, length, ltb,
  leb, ◌==◌, if◌then◌else◌, nat_key, lookup, insert, remove, adjust,
}
use btck_rust_node.Common.Words.{add64}
use btck_rust_node.Chain.{BlockHash, SocketAddr}

-- BLK_TIMEOUT
abbrev pub blk_timeout : ℕ
blk_timeout = 120

-- Who a block was requested from, and until when.
pub record Request : Type 0 where
  pub peer : SocketAddr
  pub deadline : ℕ

-- The head of `queue` is the front of the deque.
pub record Downloader : Type 0 where
  pub inflight : List (BlockHash × Request)
  pub per_peer : List (SocketAddr × ℕ)
  pub global_window : ℕ
  pub per_peer_window : ℕ
  pub queue : List BlockHash
  pub total_blocks : ℕ
  pub downloaded_blocks : ℕ

unfoldable pub new_downloader : ℕ → ℕ → Downloader
new_downloader global_window per_peer_window = record {
  inflight = [];
  per_peer = [];
  global_window = global_window;
  per_peer_window = per_peer_window;
  queue = [];
  total_blocks = 0;
  downloaded_blocks = 0;
}

unfoldable pub push_many : Downloader → List BlockHash → Downloader
push_many d [] = d
push_many d (h ∷ hs) =
    push_many (record d { queue = d.queue ++ h ∷ []; total_blocks = add64 d.total_blocks 1 }) hs

-- `*per_peer.get(&addr).unwrap_or(&0)`
unfoldable pub slots : SocketAddr → List (SocketAddr × ℕ) → ℕ
slots addr m = elim (lookup addr m) [ none ↦ 0 | some n ↦ n ]

-- One assignment: the block in flight, and the peer's slots.
unfoldable pub assign : ℕ → SocketAddr → BlockHash → Downloader → Downloader
assign now addr h d = record d {
  inflight = insert h (record { peer = addr; deadline = now + blk_timeout }) d.inflight;
  per_peer = insert addr (add64 (slots addr d.per_peer) 1) d.per_peer;
}

-- The loop of `poll_assign`, with the queue as its first list.
unfoldable pub poll_loop :
    ℕ → SocketAddr → List BlockHash → Downloader → Downloader × List BlockHash
poll_loop now addr [] d = (record d { queue = [] }, [])
poll_loop now addr (h ∷ q) d =
    let (d', out) = poll_loop now addr q (assign now addr h d) in
    if leb d.global_window (length d.inflight)
    then (record d { queue = h ∷ q }, [])
    else (if leb d.per_peer_window (slots addr d.per_peer)
        then (record d { queue = h ∷ q }, [])
        else (d', h ∷ out))

unfoldable pub poll_assign : Downloader → SocketAddr → ℕ → Downloader × List BlockHash
poll_assign d addr now = poll_loop now addr d.queue d

-- `if *n > 0 { *n -= 1; }`
abbrev pub release : ℕ → ℕ
release n = n - 1

unfoldable pub complete : Downloader → BlockHash → Downloader
complete d h = elim (lookup h d.inflight) [
  | none ↦ d
  | some r ↦ record d {
    inflight = remove h d.inflight;
    per_peer = adjust r.peer release d.per_peer;
    downloaded_blocks = add64 d.downloaded_blocks 1;
  }
]

-- The blocks that `retain` keeps.
unfoldable pub live : ℕ → List (BlockHash × Request) → List (BlockHash × Request)
live now [] = []
live now ((h, r) ∷ m) = let rest = live now m in if leb r.deadline now then rest else (h, r) ∷ rest

unfoldable pub expired : ℕ → List (BlockHash × Request) → List (BlockHash × Request)
expired now [] = []
expired now ((h, r) ∷ m) =
    let rest = expired now m in if leb r.deadline now then (h, r) ∷ rest else rest

-- The expired blocks of each peer: the map `dec`.
unfoldable pub count_expired :
    List (BlockHash × Request) → List (SocketAddr × ℕ) → List (SocketAddr × ℕ)
count_expired [] dec = dec
count_expired ((h, r) ∷ m) dec = count_expired m (insert r.peer (add64 (slots r.peer dec) 1) dec)

unfoldable pub release_all : List (SocketAddr × ℕ) → List (SocketAddr × ℕ) → List (SocketAddr × ℕ)
release_all [] per_peer = per_peer
release_all ((a, n) ∷ dec) per_peer = release_all dec (adjust a (λ c. c - n) per_peer)

unfoldable pub hashes : List (BlockHash × Request) → List BlockHash
hashes [] = []
hashes ((h, r) ∷ m) = h ∷ hashes m

unfoldable pub reassign_timeouts : Downloader → ℕ → Downloader × List BlockHash
reassign_timeouts d now =
    let gone = expired now d.inflight in
    (
      record d {
        inflight = live now d.inflight;
        per_peer = release_all (count_expired gone []) d.per_peer;
      },
      hashes gone,
    )
