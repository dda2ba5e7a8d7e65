-- ===== src/P2p/Headers/Order.antt =====
-- The chain of headers over runs of `event_loop` (src/p2p/legacy.rs).
use btck_rust_node.Common.{
  ℕ, ◌+◌, ◌-◌, ◌^◌, ◌≤◌, ◌<◌, ◌≡◌, refl, sym, ap, ◌∙◌, subst, Bool, not, ◌&&◌, Option, none, some,
  List, [], ◌∷◌, length, get_elem?, ltb, ◌==◌, if-elim, arith, nat_key, contains, Bool-cases,
  Option-cases, inl, inr, length-append,
}
use btck_rust_node.Common.Int.{ℤ, pos}
use btck_rust_node.Common.Words.{as_i32, lt_ℤ, le_ℤ, sub_i32}
use btck_rust_node.Chain.{BlockHash, SocketAddr}
use btck_rust_node.P2p.Headers.{
  BlockHeader, PeerManager, Message, with_start_height, fresh, load, build_locator,
  check_headers_sync_complete, queue_blocks_from_headers, request_blocks, add_outbound, note_peer,
  select_sync_peer, is_better_sync_peer,
}
use btck_rust_node.P2p.Headers.Events.{
  Handled, Inventory, request_headers, finish_batch, switch_peer, on_headers, on_inv, on_block,
  requeue, drop_peer, start_round, request_timer, drop_stalled, rereq_after, Event, adds_outbound,
  headers, inv, block, starts_round, reassigns, drops, asks_again, stalls, handled, step, run,
}
use btck_rust_node.P2p.Headers.Chain.{IsChain, extend_headers-IsChain, with_start_height-IsChain}
use btck_rust_node.P2p.Headers.Tree.{IsTree, hashes_of, is_in}
use btck_rust_node.P2p.Headers.Runs.{Settles, run-IsPhased, with_start_height-IsPhased}

-- The chain of headers is as it was.
abbrev pub Same : PeerManager → PeerManager → Type 0
Same m m' =
    (m'.recent_chain ≡ m.recent_chain)
    × (m'.header_chain_height ≡ m.header_chain_height)
    × (m'.header_chain ≡ m.header_chain)
    × (m'.have_header ≡ m.have_header)
    × (m'.checkpoint ≡ m.checkpoint)

Same-refl : (m : PeerManager) → Same m m
Same-refl m = (refl, refl, refl, refl, refl)

Same-IsChain : (g : BlockHash) (m m' : PeerManager) → Same m m' → IsChain g m → IsChain g m'
Same-IsChain g m m' s v = record {
  hashes = s.0 ∙ v.hashes ∙ ap (λ c. g ∷ hashes_of c) (sym s.2);
  height = s.1 ∙ v.height ∙ ap (λ c. as_i32 (length c)) (sym s.2);
  known = λ h. ap (λ t. contains h t) s.3 ∙ v.known h ∙ ap (is_in h) (sym s.0);
  tree = subst (IsTree (g ∷ [])) (sym s.2) v.tree;
  checked = λ i h c e f.
      v.checked i h c (ap (λ t. get_elem? (hashes_of t) i) (sym s.2) ∙ e)
        (ap (λ t. t (i + 1)) (sym s.4) ∙ f);
}

abbrev pub SameResult : PeerManager → Option Handled → Type 0
SameResult m none = Unit
SameResult m (some r) = Same m r.manager

check_headers_sync_complete-Same : (m : PeerManager) → Same m (check_headers_sync_complete m)
unfolding check_headers_sync_complete queue_blocks_from_headers
check_headers_sync_complete-Same m =
    if-elim (Same m) m.headers_synced (λ a. Same-refl m)
      (λ a.
        if-elim (Same m)
          (lt_ℤ (pos 0) m.best_known_height
            && le_ℤ (sub_i32 m.best_known_height (pos 144)) m.header_chain_height)
          (λ b. Same-refl m) (λ b. Same-refl m))

pub finish_batch-Same :
    (m : PeerManager) (addr : SocketAddr) (now : ℕ) → Same m (finish_batch m addr now).manager
unfolding finish_batch request_blocks
finish_batch-Same m addr now =
    if-elim (λ (r : Handled). Same m r.manager) (check_headers_sync_complete m).headers_synced
      (λ a. check_headers_sync_complete-Same m) (λ a. check_headers_sync_complete-Same m)

pub request_headers-Same :
    (m : PeerManager) (to : SocketAddr) (ts : ℕ) → SameResult m (request_headers m to ts)
unfolding request_headers
request_headers-Same m to ts = elim (Bool-cases (contains to m.peers)) [
  | inr a ↦ rw (a, request_headers) (Same-refl m)
  | inl a ↦ elim (Option-cases (build_locator m)) [
    | inl b ↦ rw (a, b, request_headers) tt
    | inr (l, b) ↦ rw (a, b, request_headers) (Same-refl m)
  ]
]

pub switch_peer-Same :
    (m : PeerManager) (peers : List SocketAddr) (now : ℕ) → SameResult m (switch_peer m peers now)
unfolding switch_peer
switch_peer-Same m [] now = Same-refl m
switch_peer-Same m (a ∷ rs) now = request_headers-Same (record m { sync_peer = some a }) a now

pub add_outbound-Same :
    (addr : SocketAddr) (h : ℤ) (network : Bool) (now : ℕ) (m : PeerManager)
    → Same m (add_outbound m addr h network now).0
unfolding add_outbound note_peer select_sync_peer request_blocks
add_outbound-Same addr h network now m =
    let P : PeerManager × List Message → Type 0 = λ r. Same m r.0 in
    if-elim P (contains addr m.peers) (λ a. Same-refl m)
      (λ a.
        if-elim P m.headers_synced (λ b. Same-refl m)
          (λ b.
            if-elim (Same m) (network && lt_ℤ (pos 0) h)
              (λ c.
                if-elim (Same m) (is_better_sync_peer (note_peer m addr h) h) (λ d. Same-refl m)
                  (λ d. Same-refl m))
              (λ c. Same-refl m)))

pub request_timer-Same : (ts now : ℕ) (m : PeerManager) → SameResult m (request_timer ts now m)
unfolding request_timer
request_timer-Same ts now m =
    if-elim (SameResult m) m.headers_synced (λ a. Same-refl m)
      (λ a. elim (Option-cases m.sync_peer) [
        | inl b ↦ rw b (
            if-elim (SameResult m) (ltb (length m.peers) 3 && ltb 10 (now - ts)) (λ c. Same-refl m)
              (λ c. Same-refl m))
        | inr (s, b) ↦ rw b (
            if-elim (SameResult m) (contains s m.peers && ltb (rereq_after m) (now - ts))
              (λ c. request_headers-Same m s now) (λ c. Same-refl m))
      ])

pub drop_stalled-Same : (ts now : ℕ) (m : PeerManager) → Same m (drop_stalled ts now m).0
unfolding drop_stalled
drop_stalled-Same ts now m =
    if-elim (λ (r : PeerManager × List Message). Same m r.0)
      (not m.headers_synced && ltb 900 (now - ts))
      (λ a. elim (Option-cases m.sync_peer) [
        | inl b ↦ rw b (Same-refl m)
        | inr (s, b) ↦ rw b (Same-refl m)
      ])
      (λ a. Same-refl m)

-- IsChain holds, and there are at most `n` headers.
abbrev Orderly : BlockHash → ℕ → PeerManager → Type 0
Orderly g n m = IsChain g m × (length m.header_chain ≤ n)

abbrev OrderlyResult : BlockHash → ℕ → Option Handled → Type 0
OrderlyResult g n none = Unit
OrderlyResult g n (some r) = Orderly g n r.manager

Same-Orderly :
    (g : BlockHash) (n : ℕ) (m m' : PeerManager) → Same m m' → Orderly g n m → Orderly g n m'
Same-Orderly g n m m' s v = (Same-IsChain g m m' s v.0, subst (λ c. length c ≤ n) (sym s.2) v.1)

SameResult-OrderlyResult :
    (g : BlockHash) (n : ℕ) (m : PeerManager) (o : Option Handled)
    → SameResult m o
    → Orderly g n m
    → OrderlyResult g n o
SameResult-OrderlyResult g n m none s v = tt
SameResult-OrderlyResult g n m (some r) s v = Same-Orderly g n m r.manager s v

Orderly-more : (g : BlockHash) (n k : ℕ) (m : PeerManager) → Orderly g n m → Orderly g (n + k) m
Orderly-more g n k m v = (v.0, omega (arith, v.1))

on_headers-Orderly :
    (g : BlockHash) (n : ℕ) (addr : SocketAddr) (h : List BlockHeader) (now : ℕ) (m : PeerManager)
    → Orderly g n m
    → n + length h < 2 ^ 31
    → OrderlyResult g (n + length h) (on_headers addr h now m)
unfolding on_headers
on_headers-Orderly g n addr h now m v b =
    let grown = extend_headers-IsChain g h m v.0 (omega (arith, v.1)) in
    let m' : PeerManager = grown.0 in
    let w : Orderly g (n + length h) m' = (
      grown.3,
      omega (arith, v.1, grown.5, ap length grown.4, length-append m.header_chain grown.1),
    ) in
    let finished = Same-Orderly g (n + length h) m' _ (finish_batch-Same m' addr now) w in
    elim (Bool-cases (length h == 0)) [
      | inl a ↦
          rw (a, on_headers)
            (Same-Orderly g (n + length h) m _ (finish_batch-Same m addr now)
              (Orderly-more g n (length h) m v))
      | inr a ↦ elim (Bool-cases (length h == 2000)) [
        | inr c ↦ rw (a, grown.2, c, on_headers) finished
        | inl c ↦ elim (Bool-cases (length grown.1 == 0)) [
          | inl d ↦
              rw (a, grown.2, c, d, on_headers)
                (SameResult-OrderlyResult g (n + length h) m' _ (switch_peer-Same m' _ now) w)
          | inr d ↦
              rw (a, grown.2, c, d, on_headers)
                (SameResult-OrderlyResult g (n + length h) m' _
                  (request_headers-Same m' addr (now + 58)) w)
        ]
      ]
    ]

-- The headers that an event, and a list of events, bring.
unfoldable pub received : Event → ℕ
received (headers addr h now) = length h
received _ = 0

unfoldable pub total_received : List Event → ℕ
total_received [] = 0
total_received (e ∷ es) = received e + total_received es

pub on_inv-Same :
    (addr : SocketAddr) (entries : List Inventory) (now : ℕ) (m : PeerManager)
    → Same m (on_inv addr entries now m).0
unfolding on_inv request_blocks
on_inv-Same addr entries now m =
    if-elim (λ (r : PeerManager × List Message). Same m r.0) m.headers_synced (λ a. Same-refl m)
      (λ a. Same-refl m)

pub on_block-Same :
    (addr : SocketAddr) (h : BlockHash) (now : ℕ) (m : PeerManager)
    → Same m (on_block addr h now m).0
unfolding on_block request_blocks
on_block-Same addr h now m =
    if-elim (λ (r : PeerManager × List Message). Same m r.0) m.headers_synced (λ a. Same-refl m)
      (λ a. Same-refl m)

pub start_round-Same : (m : PeerManager) → Same m (start_round m).0
unfolding start_round
start_round-Same m =
    if-elim (λ (r : PeerManager × List Message). Same m r.0) (length m.peers == 0)
      (λ a. Same-refl m) (λ a. Same-refl m)

step-Orderly :
    (g : BlockHash) (n : ℕ) (e : Event) (ts : ℕ) (m : PeerManager)
    → Orderly g n m
    → n + received e < 2 ^ 31
    → OrderlyResult g (n + received e) (step e ts m)
unfolding step handled received requeue drop_peer
step-Orderly g n (headers addr h now) ts m v b = on_headers-Orderly g n addr h now m v b
step-Orderly g n (adds_outbound addr h network now) ts m v b =
    Same-Orderly g (n + 0) m _ (add_outbound-Same addr h network now m) (Orderly-more g n 0 m v)
step-Orderly g n (inv addr entries now) ts m v b =
    Same-Orderly g (n + 0) m _ (on_inv-Same addr entries now m) (Orderly-more g n 0 m v)
step-Orderly g n (block addr h now) ts m v b =
    Same-Orderly g (n + 0) m _ (on_block-Same addr h now m) (Orderly-more g n 0 m v)
step-Orderly g n starts_round ts m v b =
    Same-Orderly g (n + 0) m _ (start_round-Same m) (Orderly-more g n 0 m v)
step-Orderly g n (reassigns now) ts m v b =
    Same-Orderly g (n + 0) m _ (Same-refl m) (Orderly-more g n 0 m v)
step-Orderly g n (drops addr) ts m v b =
    Same-Orderly g (n + 0) m _ (Same-refl m) (Orderly-more g n 0 m v)
step-Orderly g n (asks_again now) ts m v b =
    SameResult-OrderlyResult g (n + 0) m _ (request_timer-Same ts now m) (Orderly-more g n 0 m v)
step-Orderly g n (stalls now) ts m v b =
    Same-Orderly g (n + 0) m _ (drop_stalled-Same ts now m) (Orderly-more g n 0 m v)

abbrev Ends : BlockHash → Option PeerManager → Type 0
Ends g none = Unit
Ends g (some m) = IsChain g m

run-Ends :
    (g : BlockHash) (n : ℕ) (es : List Event) (ts : ℕ) (m : PeerManager)
    → Orderly g n m
    → n + total_received es < 2 ^ 31
    → Ends g (run es ts m)
unfolding run total_received
run-Ends g n [] ts m v b = v.0
run-Ends g n (e ∷ es) ts m v b = elim (Option-cases (step e ts m)) [
  | inl a ↦ rw (a, run) tt
  | inr (r, a) ↦
      let w : Orderly g (n + received e) r.manager =
        subst (OrderlyResult g (n + received e)) a (step-Orderly g n e ts m v (omega arith)) in
      rw (a, run) (run-Ends g (n + received e) es r.last_headers_ts r.manager w (omega arith))
]

started_length :
    (g : BlockHash) (cp : ℕ → Option BlockHash) (start_height : ℤ)
    → length (with_start_height g cp [] start_height).header_chain ≤ 0
unfolding with_start_height fresh load
started_length g cp start_height = omega arith

-- A node that starts without headers on disk gets through any events without a panic. Of its chain
-- of headers, IsChain holds afterwards: the hashes kept are those of genesis and of the stored headers,
-- in their order, and exactly these are known; the height counts the headers; each header's parent
-- stands somewhere before it (it need not be the header right before), and no hash stands twice; and
-- no header differs from a checkpoint at its height. All batches together have less than 2^31 headers.
pub run-with_start_height-IsChain :
    (g : BlockHash) (cp : ℕ → Option BlockHash) (start_height : ℤ) (es : List Event) (ts : ℕ)
    → total_received es < 2 ^ 31
    → (m : PeerManager) × (run es ts (with_start_height g cp [] start_height) ≡ some m)
      × IsChain g m
run-with_start_height-IsChain g cp start_height es ts b =
    let m : PeerManager = with_start_height g cp [] start_height in
    let ends : Ends g (run es ts m) =
      run-Ends g 0 es ts m
        (with_start_height-IsChain g cp start_height, started_length g cp start_height)
        (omega arith) in
    elim (Option-cases (run es ts m)) [
      | inl a ↦
          absurd (
            subst Settles a
              (run-IsPhased es ts m (with_start_height-IsPhased g cp [] start_height)))
      | inr (m', a) ↦ (m', a, subst (Ends g) a ends)
    ]
