-- ===== src/P2p/Headers/Phases.antt =====
-- The phases of the sync (src/p2p/legacy.rs): headers first, then blocks.
use btck_rust_node.Common.{
  ℕ, ◌+◌, ◌-◌, ◌≤◌, ◌<◌, ◌≡◌, refl, sym, ◌∙◌, subst, Bool, true, false, ◌&&◌, Option, none, some,
  List, [], ◌∷◌, length, ltb, ◌==◌, if◌then◌else◌, arith, nat_key, contains, Bool-cases,
  Option-cases, inl, inr, none-some, length-append, if-elim, not,
}
use btck_rust_node.Common.Words.{add64, lt_ℤ, le_ℤ, sub_i32}
use btck_rust_node.Common.Int.{ℤ, pos}
use btck_rust_node.Chain.{BlockHash, SocketAddr}
use btck_rust_node.P2p.Downloader.{
  Downloader, Request, push_many, complete, reassign_timeouts, expired, live, hashes,
}
use btck_rust_node.P2p.Downloader.Windows.{
  IsWithin, push_many-IsWithin, poll_assign-IsWithin, complete-IsWithin, reassign_timeouts-IsWithin,
}
use btck_rust_node.P2p.Headers.{
  BlockHeader, PeerManager, Message, bootstrap, extend_loop, push_header, set_tip, extend_headers,
  last, check_headers_sync_complete, queue_blocks_from_headers, blocks_to_download, request_blocks,
  passes_checkpoint, is_better_sync_peer, add_outbound, note_peer, select_sync_peer,
}
use btck_rust_node.P2p.Headers.Depths.{last-cons}
use btck_rust_node.P2p.Headers.Locator.{build_locator-IsLocator}
use btck_rust_node.P2p.Headers.Events.{
  Handled, request_headers, finish_batch, switch_peer, on_headers, Inventory, rereq_after, on_inv,
  on_block, requeue, request_timer, drop_stalled, needed,
}

-- Nothing to download, and nothing being downloaded.
abbrev pub IsIdle : Downloader → Type 0
IsIdle d = (d.inflight ≡ []) × (d.queue ≡ [])

-- The chain is not empty, the windows hold, and until the headers are synced no block is queued or in
-- flight.
pub record IsPhased (m : PeerManager) : Type 0 where
  pub rooted : 0 < length m.recent_chain
  pub within : IsWithin m.downloader
  pub idle : m.headers_synced ≡ false → IsIdle m.downloader

-- What the phase depends on is as it was.
abbrev pub Frame : PeerManager → PeerManager → Type 0
Frame m m' =
    (m'.downloader ≡ m.downloader)
    × (m'.headers_synced ≡ m.headers_synced)
    × (length m.recent_chain ≤ length m'.recent_chain)

pub Frame-IsPhased : (m m' : PeerManager) → Frame m m' → IsPhased m → IsPhased m'
Frame-IsPhased m m' f v = record {
  rooted = omega (arith, f.2, v.rooted);
  within = subst IsWithin (sym f.0) v.within;
  idle = λ h. subst IsIdle (sym f.0) (v.idle (sym f.1 ∙ h));
}

true≢false : (m : PeerManager) → m.headers_synced ≡ true → m.headers_synced ≡ false → ⊥
true≢false m s h = cc

pub synced-IsPhased :
    (m : PeerManager)
    → 0 < length m.recent_chain
    → IsWithin m.downloader
    → m.headers_synced ≡ true
    → IsPhased m
synced-IsPhased m r v s = record { rooted = r; within = v; idle = λ h. absurd (true≢false m s h) }

request_blocks-IsPhased :
    (m : PeerManager) (addr : SocketAddr) (now : ℕ)
    → 0 < length m.recent_chain
    → IsWithin m.downloader
    → m.headers_synced ≡ true
    → IsPhased (request_blocks m addr now).0
unfolding request_blocks
request_blocks-IsPhased m addr now r v s =
    synced-IsPhased _ r (poll_assign-IsWithin m.downloader addr now v) s

extend_loop-Frame :
    (hs : List BlockHeader) (tip : BlockHash) (added : ℕ) (m : PeerManager)
    → Frame m (extend_loop hs tip added m).0
unfolding extend_loop push_header
extend_loop-Frame [] tip added m = (refl, refl, omega arith)
extend_loop-Frame (hh ∷ hs) tip added m = elim (Bool-cases (contains hh.block_hash m.have_header)) [
  | inl a ↦ rw (a, extend_loop) (extend_loop-Frame hs hh.block_hash added m)
  | inr a ↦ elim (Bool-cases (hh.prev_blockhash == tip)) [
    | inr p ↦ rw (a, p, extend_loop) (refl, refl, omega arith)
    | inl p ↦ elim (Bool-cases (passes_checkpoint hh.block_hash m)) [
      | inr c ↦ rw (a, p, c, extend_loop) (refl, refl, omega arith)
      | inl c ↦
          let f = extend_loop-Frame hs hh.block_hash (add64 added 1) (push_header hh m) in
          rw (a, p, c, extend_loop)
            (f.0, f.1, omega (arith, f.2, length-append m.recent_chain (hh.block_hash ∷ [])))
    ]
  ]
]

set_tip-Frame : (m : PeerManager) → Frame m (set_tip m)
unfolding set_tip
set_tip-Frame m = elim (Option-cases (last m.recent_chain)) [
  | inl a ↦ rw (a, set_tip) (refl, refl, omega arith)
  | inr (t, a) ↦ rw (a, set_tip) (refl, refl, omega arith)
]

-- What holds of a result: the code has not panicked.
abbrev Grown : PeerManager → Option (PeerManager × ℕ) → Type 0
Grown m none = ⊥
Grown m (some r) = Frame m r.0

abbrev pub Holds : Option Handled → Type 0
Holds none = ⊥
Holds (some r) = IsPhased r.manager

last_rooted : (xs : List BlockHash) → 0 < length xs → last xs ≡ none → ⊥
unfolding last
last_rooted [] k e = omega arith
last_rooted (x ∷ xs) k e = none-some e (last-cons x xs).1

extend_headers-Frame :
    (hs : List BlockHeader) (m : PeerManager)
    → 0 < length m.recent_chain
    → Grown m (extend_headers hs m)
unfolding extend_headers
extend_headers-Frame [] m k = (refl, refl, omega arith)
extend_headers-Frame (hh ∷ hs) m k = elim (Option-cases (last m.recent_chain)) [
  | inl a ↦ absurd (last_rooted m.recent_chain k a)
  | inr (t, a) ↦
      let grown : PeerManager = (extend_loop (hh ∷ hs) t 0 m).0 in
      let f = extend_loop-Frame (hh ∷ hs) t 0 m in
      let g = set_tip-Frame grown in
      rw (a, extend_headers) (g.0 ∙ f.0, g.1 ∙ f.1, omega (arith, f.2, g.2))
]

check_headers_sync_complete-IsPhased :
    (m : PeerManager) → IsPhased m → IsPhased (check_headers_sync_complete m)
unfolding check_headers_sync_complete queue_blocks_from_headers
check_headers_sync_complete-IsPhased m v =
    if-elim IsPhased m.headers_synced (λ a. v)
      (λ a.
        if-elim IsPhased
          (lt_ℤ (pos 0) m.best_known_height
            && le_ℤ (sub_i32 m.best_known_height (pos 144)) m.header_chain_height)
          (λ b.
            synced-IsPhased _ v.rooted
              (push_many-IsWithin (blocks_to_download m.start_height m.recent_chain) m.downloader
                v.within)
              refl)
          (λ b. v))

request_headers-IsPhased :
    (m : PeerManager) (to : SocketAddr) (ts : ℕ) → IsPhased m → Holds (request_headers m to ts)
unfolding request_headers
request_headers-IsPhased m to ts v = elim (Bool-cases (contains to m.peers)) [
  | inr a ↦ rw (a, request_headers) v
  | inl a ↦
      let l = build_locator-IsLocator m v.rooted in
      rw (a, l.1, request_headers) (Frame-IsPhased m _ (refl, refl, omega arith) v)
]

finish_batch-IsPhased :
    (m : PeerManager) (addr : SocketAddr) (now : ℕ)
    → IsPhased m
    → IsPhased (finish_batch m addr now).manager
unfolding finish_batch
finish_batch-IsPhased m addr now v =
    let checked : PeerManager = check_headers_sync_complete m in
    let w : IsPhased checked = check_headers_sync_complete-IsPhased m v in
    if-elim (λ (r : Handled). IsPhased r.manager) checked.headers_synced
      (λ a. request_blocks-IsPhased checked addr now w.rooted w.within a) (λ a. w)

switch_peer-IsPhased :
    (m : PeerManager) (peers : List SocketAddr) (now : ℕ)
    → IsPhased m
    → Holds (switch_peer m peers now)
unfolding switch_peer
switch_peer-IsPhased m [] now v = Frame-IsPhased m _ (refl, refl, omega arith) v
switch_peer-IsPhased m (a ∷ rs) now v =
    request_headers-IsPhased (record m { sync_peer = some a }) a now
      (Frame-IsPhased m _ (refl, refl, omega arith) v)

pub on_headers-IsPhased :
    (addr : SocketAddr) (h : List BlockHeader) (now : ℕ) (m : PeerManager)
    → IsPhased m
    → Holds (on_headers addr h now m)
unfolding on_headers
on_headers-IsPhased addr h now m v = elim (Bool-cases (length h == 0)) [
  | inl a ↦ rw (a, on_headers) (finish_batch-IsPhased m addr now v)
  | inr a ↦ elim (Option-cases (extend_headers h m)) [
    | inl b ↦ absurd (subst (Grown m) b (extend_headers-Frame h m v.rooted))
    | inr (r, b) ↦
        let w : IsPhased r.0 =
          Frame-IsPhased m r.0 (subst (Grown m) b (extend_headers-Frame h m v.rooted)) v in
        elim (Bool-cases (length h == 2000)) [
          | inr c ↦ rw (a, b, c, on_headers) (finish_batch-IsPhased r.0 addr now w)
          | inl c ↦ elim (Bool-cases (r.1 == 0)) [
            | inl d ↦ rw (a, b, c, d, on_headers) (switch_peer-IsPhased r.0 _ now w)
            | inr d ↦ rw (a, b, c, d, on_headers) (request_headers-IsPhased r.0 addr (now + 58) w)
          ]
        ]
  ]
]

pub add_outbound-IsPhased :
    (addr : SocketAddr) (h : ℤ) (network : Bool) (now : ℕ) (m : PeerManager)
    → IsPhased m
    → IsPhased (add_outbound m addr h network now).0
unfolding add_outbound note_peer select_sync_peer
add_outbound-IsPhased addr h network now m v =
    if-elim P (contains addr m.peers) (λ a. v)
      (λ a.
        if-elim P m.headers_synced (λ b. request_blocks-IsPhased noted addr now v.rooted v.within b)
          (λ b.
            if-elim IsPhased (network && lt_ℤ (pos 0) h)
              (λ c.
                if-elim IsPhased (is_better_sync_peer noted h)
                  (λ d. Frame-IsPhased m _ (refl, refl, omega arith) v)
                  (λ d. Frame-IsPhased m _ (refl, refl, omega arith) v))
              (λ c. Frame-IsPhased m _ (refl, refl, omega arith) v)))
  where
    P : PeerManager × List Message → Type 0
    P r = IsPhased r.0

    noted : PeerManager
    noted = note_peer m addr h

pub on_inv-IsPhased :
    (addr : SocketAddr) (entries : List Inventory) (now : ℕ) (m : PeerManager)
    → IsPhased m
    → IsPhased (on_inv addr entries now m).0
unfolding on_inv
on_inv-IsPhased addr entries now m v =
    if-elim (λ (r : PeerManager × List Message). IsPhased r.0) m.headers_synced
      (λ a.
        request_blocks-IsPhased
          (record m { downloader = push_many m.downloader (needed m entries) }) addr now v.rooted
          (push_many-IsWithin (needed m entries) m.downloader v.within) a)
      (λ a. v)

pub on_block-IsPhased :
    (addr : SocketAddr) (h : BlockHash) (now : ℕ) (m : PeerManager)
    → IsPhased m
    → IsPhased (on_block addr h now m).0
unfolding on_block
on_block-IsPhased addr h now m v =
    if-elim (λ (r : PeerManager × List Message). IsPhased r.0) m.headers_synced
      (λ a.
        request_blocks-IsPhased (record m { downloader = complete m.downloader h }) addr now
          v.rooted (complete-IsWithin m.downloader h v.within) a)
      (λ a. v)

cons≢nil : {A : Type 0} {x : A} {xs : List A} → x ∷ xs ≡ [] → ⊥
cons≢nil e = cc

requeue-IsIdle :
    (now : ℕ) (d : Downloader) (inflight : List (BlockHash × Request)) (queue : List BlockHash)
    → inflight ≡ []
    → queue ≡ []
    → IsIdle (
        push_many
          (reassign_timeouts (record d { inflight = inflight; queue = queue }) now).0
          (reassign_timeouts (record d { inflight = inflight; queue = queue }) now).1)
unfolding reassign_timeouts push_many expired live hashes
requeue-IsIdle now d [] [] p q = (refl, refl)
requeue-IsIdle now d (x ∷ m) queue p q = absurd (cons≢nil p)
requeue-IsIdle now d [] (x ∷ queue) p q = absurd (cons≢nil q)

pub requeue-IsPhased : (now : ℕ) (m : PeerManager) → IsPhased m → IsPhased (requeue now m)
unfolding requeue
requeue-IsPhased now m v = record {
  rooted = v.rooted;
  within =
      push_many-IsWithin (reassign_timeouts m.downloader now).1 _
        (reassign_timeouts-IsWithin m.downloader now v.within);
  idle = λ h. requeue-IsIdle now m.downloader _ _ (v.idle h).0 (v.idle h).1;
}

pub request_timer-IsPhased :
    (ts now : ℕ) (m : PeerManager) → IsPhased m → Holds (request_timer ts now m)
unfolding request_timer
request_timer-IsPhased ts now m v =
    if-elim Holds m.headers_synced (λ a. v)
      (λ a.
        elim m.sync_peer
          as (λ o. Holds (elim o [
            | none ↦
                if ltb (length m.peers) 3 && ltb 10 (now - ts)
                then some (record { manager = m; last_headers_ts = now; sent = bootstrap ∷ [] })
                else some (record { manager = m; last_headers_ts = ts; sent = [] })
            | some sync_addr ↦
                if contains sync_addr m.peers && ltb (rereq_after m) (now - ts)
                then request_headers m sync_addr now
                else some (record { manager = m; last_headers_ts = ts; sent = [] })
          ])) [
            | none ↦ if-elim Holds (ltb (length m.peers) 3 && ltb 10 (now - ts)) (λ b. v) (λ b. v)
            | some sync_addr ↦
                if-elim Holds (contains sync_addr m.peers && ltb (rereq_after m) (now - ts))
                  (λ b. request_headers-IsPhased m sync_addr now v) (λ b. v)
          ])

pub drop_stalled-IsPhased :
    (ts now : ℕ) (m : PeerManager) → IsPhased m → IsPhased (drop_stalled ts now m).0
unfolding drop_stalled
drop_stalled-IsPhased ts now m v =
    if-elim (λ (r : PeerManager × List Message). IsPhased r.0)
      (not m.headers_synced && ltb 900 (now - ts))
      (λ a. elim (Option-cases m.sync_peer) [
        | inl b ↦ rw b v
        | inr (s, b) ↦ rw b (Frame-IsPhased m _ (refl, refl, omega arith) v)
      ])
      (λ a. v)
