-- ===== src/P2p/Headers/Runs.antt =====
-- The phases over runs of `event_loop` (src/p2p/legacy.rs) from the start of the node.
use btck_rust_node.Common.{
  ℕ, ◌≡◌, refl, ap, ◌∙◌, subst, true, false, not, Option, none, some, List, [], ◌∷◌, ◌++◌, length,
  ◌==◌, if-elim, arith, nat_key, insert, add, Option-cases, inl, inr, length-append,
}
use btck_rust_node.Common.Int.{ℤ}
use btck_rust_node.Chain.{BlockHash}
use btck_rust_node.P2p.Downloader.{new_downloader}
use btck_rust_node.P2p.Downloader.Windows.{new_downloader-IsWithin, push_many-IsWithin}
use btck_rust_node.P2p.Headers.{
  BlockHeader, PeerManager, Message, with_start_height, fresh, load, blocks_to_download,
}
use btck_rust_node.P2p.Headers.Events.{
  Event, adds_outbound, headers, inv, block, starts_round, start_round, reassigns, drops,
  asks_again, stalls, handled, step, run, drop_peer,
}
use btck_rust_node.P2p.Headers.Phases.{
  IsPhased, Frame, Frame-IsPhased, synced-IsPhased, Holds, add_outbound-IsPhased,
  on_headers-IsPhased, on_inv-IsPhased, on_block-IsPhased, requeue-IsPhased, request_timer-IsPhased,
  drop_stalled-IsPhased,
}

start_round-IsPhased : (m : PeerManager) → IsPhased m → IsPhased (start_round m).0
unfolding start_round
start_round-IsPhased m v =
    if-elim (λ (r : PeerManager × List Message). IsPhased r.0) (length m.peers == 0)
      (λ a. Frame-IsPhased m _ (refl, refl, omega arith) v) (λ a. v)

pub step-IsPhased : (e : Event) (ts : ℕ) (m : PeerManager) → IsPhased m → Holds (step e ts m)
unfolding step handled drop_peer
step-IsPhased (adds_outbound addr h network now) ts m v =
    add_outbound-IsPhased addr h network now m v
step-IsPhased (headers addr h now) ts m v = on_headers-IsPhased addr h now m v
step-IsPhased (inv addr entries now) ts m v = on_inv-IsPhased addr entries now m v
step-IsPhased (block addr h now) ts m v = on_block-IsPhased addr h now m v
step-IsPhased starts_round ts m v = start_round-IsPhased m v
step-IsPhased (reassigns now) ts m v = requeue-IsPhased now m v
step-IsPhased (drops addr) ts m v = Frame-IsPhased m _ (refl, refl, omega arith) v
step-IsPhased (asks_again now) ts m v = request_timer-IsPhased ts now m v
step-IsPhased (stalls now) ts m v = drop_stalled-IsPhased ts now m v

abbrev pub Settles : Option PeerManager → Type 0
Settles none = ⊥
Settles (some m) = IsPhased m

pub run-IsPhased : (es : List Event) (ts : ℕ) (m : PeerManager) → IsPhased m → Settles (run es ts m)
unfolding run
run-IsPhased [] ts m v = v
run-IsPhased (e ∷ es) ts m v = elim (Option-cases (step e ts m)) [
  | inl a ↦ absurd (subst Holds a (step-IsPhased e ts m v))
  | inr (r, a) ↦
      rw (a, run)
        (run-IsPhased es r.last_headers_ts r.manager (subst Holds a (step-IsPhased e ts m v)))
]

load-Frame : (hs : List BlockHeader) (m : PeerManager) → Frame m (load hs m)
unfolding load
load-Frame [] m = (refl, refl, omega arith)
load-Frame (header ∷ hs) m =
    let f = load-Frame hs (record m {
      have_header = add header.block_hash m.have_header;
      prev_map = insert header.block_hash header.prev_blockhash m.prev_map;
      recent_chain = m.recent_chain ++ header.block_hash ∷ [];
      best_header_tip = header.block_hash;
    }) in
    (f.0, f.1, omega (arith, f.2, length-append m.recent_chain (header.block_hash ∷ [])))

fresh-IsPhased :
    (g : BlockHash) (cp : ℕ → Option BlockHash) (loaded : List BlockHeader) (start_height : ℤ)
    → IsPhased (fresh g cp loaded start_height)
unfolding fresh new_downloader
fresh-IsPhased g cp loaded start_height = record {
  rooted = omega arith;
  within = new_downloader-IsWithin 16 4 (omega arith);
  idle = λ h. (refl, refl);
}

synced_of :
    (g : BlockHash) (cp : ℕ → Option BlockHash) (loaded : List BlockHeader) (start_height : ℤ)
    → (length loaded == 0) ≡ false
    → (fresh g cp loaded start_height).headers_synced ≡ true
unfolding fresh
synced_of g cp loaded start_height a = ap not a

pub with_start_height-IsPhased :
    (g : BlockHash) (cp : ℕ → Option BlockHash) (loaded : List BlockHeader) (start_height : ℤ)
    → IsPhased (with_start_height g cp loaded start_height)
unfolding with_start_height
with_start_height-IsPhased g cp loaded start_height =
    let first : PeerManager = fresh g cp loaded start_height in
    let f = load-Frame loaded first in
    let v : IsPhased (load loaded first) =
      Frame-IsPhased first _ f (fresh-IsPhased g cp loaded start_height) in
    if-elim IsPhased (length loaded == 0) (λ a. v)
      (λ a.
        synced-IsPhased _ v.rooted
          (push_many-IsWithin (blocks_to_download start_height (load loaded first).recent_chain)
            (load loaded first).downloader v.within)
          (f.1 ∙ synced_of g cp loaded start_height a))
