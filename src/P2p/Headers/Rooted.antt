-- ===== src/P2p/Headers/Rooted.antt =====
-- What runs of `event_loop` (src/p2p/legacy.rs) leave of the chain that the node starts with.
use mathlib.Core.List.{append_assoc, append-nil}
use btck_rust_node.Common.{
  ℕ, ◌+◌, ◌≡◌, sym, ap, ◌∙◌, subst, Option, none, some, List, [], ◌∷◌, ◌++◌, length, ◌==◌, if-elim,
  nat_key, contains, insert, add, Bool-cases, Option-cases, inl, inr,
}
use btck_rust_node.Common.Int.{ℤ}
use btck_rust_node.Common.Words.{add64}
use btck_rust_node.Chain.{BlockHash, SocketAddr}
use btck_rust_node.P2p.Headers.{
  BlockHeader, PeerManager, with_start_height, fresh, load, last, push_header, passes_checkpoint,
  extend_loop, set_tip, extend_headers,
}
use btck_rust_node.P2p.Headers.Events.{
  Handled, on_headers, requeue, drop_peer, Event, adds_outbound, headers, inv, block, starts_round,
  reassigns, drops, asks_again, stalls, handled, step, run,
}
use btck_rust_node.P2p.Headers.Tree.{hashes_of}
use btck_rust_node.P2p.Headers.Phases.{IsPhased}
use btck_rust_node.P2p.Headers.Runs.{Settles, run-IsPhased, with_start_height-IsPhased}
use btck_rust_node.P2p.Headers.Order.{
  SameResult, finish_batch-Same, switch_peer-Same, request_headers-Same, add_outbound-Same,
  on_inv-Same, on_block-Same, start_round-Same, request_timer-Same, drop_stalled-Same,
}

-- The manager's chain goes on from these hashes.
abbrev Begins : List BlockHash → PeerManager → Type 0
Begins chain m = (new : List BlockHash) × (m.recent_chain ≡ chain ++ new)

abbrev BeginsResult : List BlockHash → Option Handled → Type 0
BeginsResult chain none = Unit
BeginsResult chain (some r) = Begins chain r.manager

SameResult-BeginsResult :
    (chain : List BlockHash) (m : PeerManager) (o : Option Handled)
    → SameResult m o
    → Begins chain m
    → BeginsResult chain o
SameResult-BeginsResult chain m none s v = tt
SameResult-BeginsResult chain m (some r) s v = (v.0, s.0 ∙ v.1)

push_header-Begins :
    (chain : List BlockHash) (hh : BlockHeader) (m : PeerManager)
    → Begins chain m
    → Begins chain (push_header hh m)
unfolding push_header
push_header-Begins chain hh m v = (
  v.0 ++ hh.block_hash ∷ [],
  ap (λ hs. hs ++ hh.block_hash ∷ []) v.1 ∙ append_assoc chain v.0 (hh.block_hash ∷ []),
)

extend_loop-Begins :
    (chain : List BlockHash) (hs : List BlockHeader) (tip : BlockHash) (added : ℕ) (m : PeerManager)
    → Begins chain m
    → Begins chain (extend_loop hs tip added m).0
unfolding extend_loop
extend_loop-Begins chain [] tip added m v = v
extend_loop-Begins chain (hh ∷ hs) tip added m v =
    elim (Bool-cases (contains hh.block_hash m.have_header)) [
      | inl a ↦ rw (a, extend_loop) (extend_loop-Begins chain hs hh.block_hash added m v)
      | inr a ↦ elim (Bool-cases (hh.prev_blockhash == tip)) [
        | inr p ↦ rw (a, p, extend_loop) v
        | inl p ↦ elim (Bool-cases (passes_checkpoint hh.block_hash m)) [
          | inr c ↦ rw (a, p, c, extend_loop) v
          | inl c ↦
              rw (a, p, c, extend_loop)
                (extend_loop-Begins chain hs hh.block_hash (add64 added 1) (push_header hh m)
                  (push_header-Begins chain hh m v))
        ]
      ]
    ]

set_tip-Begins :
    (chain : List BlockHash) (m : PeerManager) → Begins chain m → Begins chain (set_tip m)
unfolding set_tip
set_tip-Begins chain m v = elim (Option-cases (last m.recent_chain)) [
  | inl a ↦ rw (a, set_tip) v
  | inr (t, a) ↦ rw (a, set_tip) v
]

-- What holds of the result of `extend_headers`.
abbrev Extends : List BlockHash → Option (PeerManager × ℕ) → Type 0
Extends chain none = Unit
Extends chain (some r) = Begins chain r.0

extend_headers-Extends :
    (chain : List BlockHash) (hs : List BlockHeader) (m : PeerManager)
    → Begins chain m
    → Extends chain (extend_headers hs m)
unfolding extend_headers
extend_headers-Extends chain [] m v = v
extend_headers-Extends chain (hh ∷ hs) m v = elim (Option-cases (last m.recent_chain)) [
  | inl a ↦ rw (a, extend_headers) tt
  | inr (t, a) ↦
      rw (a, extend_headers)
        (set_tip-Begins chain (extend_loop (hh ∷ hs) t 0 m).0
          (extend_loop-Begins chain (hh ∷ hs) t 0 m v))
]

on_headers-BeginsResult :
    (chain : List BlockHash) (addr : SocketAddr) (h : List BlockHeader) (now : ℕ) (m : PeerManager)
    → Begins chain m
    → BeginsResult chain (on_headers addr h now m)
unfolding on_headers
on_headers-BeginsResult chain addr h now m v = elim (Bool-cases (length h == 0)) [
  | inl a ↦ rw (a, on_headers) (v.0, (finish_batch-Same m addr now).0 ∙ v.1)
  | inr a ↦ elim (Option-cases (extend_headers h m)) [
    | inl b ↦ rw (a, b, on_headers) tt
    | inr (r, b) ↦
        let w : Begins chain r.0 = subst (Extends chain) b (extend_headers-Extends chain h m v) in
        elim (Bool-cases (length h == 2000)) [
          | inr c ↦ rw (a, b, c, on_headers) (w.0, (finish_batch-Same r.0 addr now).0 ∙ w.1)
          | inl c ↦ elim (Bool-cases (r.1 == 0)) [
            | inl d ↦
                rw (a, b, c, d, on_headers)
                  (SameResult-BeginsResult chain r.0 _ (switch_peer-Same r.0 _ now) w)
            | inr d ↦
                rw (a, b, c, d, on_headers)
                  (SameResult-BeginsResult chain r.0 _ (request_headers-Same r.0 addr (now + 58)) w)
          ]
        ]
  ]
]

step-BeginsResult :
    (chain : List BlockHash) (e : Event) (ts : ℕ) (m : PeerManager)
    → Begins chain m
    → BeginsResult chain (step e ts m)
unfolding step handled requeue drop_peer
step-BeginsResult chain (headers addr h now) ts m v = on_headers-BeginsResult chain addr h now m v
step-BeginsResult chain (adds_outbound addr h network now) ts m v =
    (v.0, (add_outbound-Same addr h network now m).0 ∙ v.1)
step-BeginsResult chain (inv addr entries now) ts m v =
    (v.0, (on_inv-Same addr entries now m).0 ∙ v.1)
step-BeginsResult chain (block addr h now) ts m v = (v.0, (on_block-Same addr h now m).0 ∙ v.1)
step-BeginsResult chain starts_round ts m v = (v.0, (start_round-Same m).0 ∙ v.1)
step-BeginsResult chain (reassigns now) ts m v = v
step-BeginsResult chain (drops addr) ts m v = v
step-BeginsResult chain (asks_again now) ts m v =
    SameResult-BeginsResult chain m _ (request_timer-Same ts now m) v
step-BeginsResult chain (stalls now) ts m v = (v.0, (drop_stalled-Same ts now m).0 ∙ v.1)

abbrev Ends : List BlockHash → Option PeerManager → Type 0
Ends chain none = Unit
Ends chain (some m) = Begins chain m

run-Ends :
    (chain : List BlockHash) (es : List Event) (ts : ℕ) (m : PeerManager)
    → Begins chain m
    → Ends chain (run es ts m)
unfolding run
run-Ends chain [] ts m v = v
run-Ends chain (e ∷ es) ts m v = elim (Option-cases (step e ts m)) [
  | inl a ↦ rw (a, run) tt
  | inr (r, a) ↦
      rw (a, run)
        (run-Ends chain es r.last_headers_ts r.manager
          (subst (BeginsResult chain) a (step-BeginsResult chain e ts m v)))
]

recent_chain-load :
    (hs : List BlockHeader) (m : PeerManager)
    → (load hs m).recent_chain ≡ m.recent_chain ++ hashes_of hs
unfolding load hashes_of
recent_chain-load [] m = sym (append-nil m.recent_chain)
recent_chain-load (header ∷ hs) m =
    recent_chain-load hs (record m {
      have_header = add header.block_hash m.have_header;
      prev_map = insert header.block_hash header.prev_blockhash m.prev_map;
      recent_chain = m.recent_chain ++ header.block_hash ∷ [];
      best_header_tip = header.block_hash;
    })
    ∙ append_assoc m.recent_chain (header.block_hash ∷ []) (hashes_of hs)

recent_chain-with_start_height :
    (g : BlockHash) (cp : ℕ → Option BlockHash) (loaded : List BlockHeader) (start_height : ℤ)
    → (with_start_height g cp loaded start_height).recent_chain ≡ g ∷ hashes_of loaded
unfolding with_start_height fresh
recent_chain-with_start_height g cp loaded start_height =
    let all : (load loaded (fresh g cp loaded start_height)).recent_chain ≡ g ∷ hashes_of loaded =
      recent_chain-load loaded (fresh g cp loaded start_height) in
    if-elim (λ (m : PeerManager). m.recent_chain ≡ g ∷ hashes_of loaded) (length loaded == 0)
      (λ a. all) (λ a. all)

-- From the start of the node, on the headers read from disk and with any messages, in any order, the
-- loop does not panic; the chain still begins with genesis and then the headers from disk, in the
-- order of the file; the windows of the downloader hold; and no block is queued or in flight until
-- the headers are synced.
pub run-with_start_height-IsPhased :
    (g : BlockHash) (cp : ℕ → Option BlockHash) (loaded : List BlockHeader) (start_height : ℤ)
    (es : List Event) (ts : ℕ)
    → (m : PeerManager) × (run es ts (with_start_height g cp loaded start_height) ≡ some m)
      × IsPhased m
      × ((new : List BlockHash) × (m.recent_chain ≡ g ∷ hashes_of loaded ++ new))
run-with_start_height-IsPhased g cp loaded start_height es ts =
    let first : PeerManager = with_start_height g cp loaded start_height in
    let begun : Begins (g ∷ hashes_of loaded) first = (
      [],
      recent_chain-with_start_height g cp loaded start_height
          ∙ sym (append-nil (g ∷ hashes_of loaded)),
    ) in
    let ends = run-Ends (g ∷ hashes_of loaded) es ts first begun in
    let settles = run-IsPhased es ts first (with_start_height-IsPhased g cp loaded start_height) in
    elim (Option-cases (run es ts first)) [
      | inl a ↦ absurd (subst Settles a settles)
      | inr (m, a) ↦ (m, a, subst Settles a settles, subst (Ends (g ∷ hashes_of loaded)) a ends)
    ]
