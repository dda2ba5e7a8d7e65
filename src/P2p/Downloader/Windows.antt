-- ===== src/P2p/Downloader/Windows.antt =====
-- The windows of the downloader (src/p2p/legacy.rs) hold, and blocks are assigned in order.
use btck_rust_node.Common.{
  ℕ, suc, ◌+◌, ◌-◌, ◌^◌, ◌≤◌, ◌<◌, ◌≡◌, refl, ap, none, some, List, [], ◌∷◌, ◌++◌, length, leb,
  leb→le, ◌==◌, if◌then◌else◌, arith, nat_key, lookup, insert, remove, adjust, lookup-insert,
  lookup-adjust, length-insert-le, length-remove-le, IsDistinct, insert-IsDistinct, Bool-cases,
  Option-cases, inl, inr, none-some, ◌⊎◌,
}
use btck_rust_node.Common.Words.{add64, u64_mod}
use btck_rust_node.Chain.{BlockHash, SocketAddr}
use btck_rust_node.P2p.Downloader.{
  Request, Downloader, new_downloader, push_many, slots, assign, poll_loop, poll_assign, complete,
  live, expired, count_expired, release_all, reassign_timeouts, blk_timeout,
}

-- The blocks in flight from a peer.
unfoldable pub flying : SocketAddr → List (BlockHash × Request) → ℕ
flying a [] = 0
flying a ((h, r) ∷ m) = let rest = flying a m in if r.peer == a then suc rest else rest

pub record IsWithin (d : Downloader) : Type 0 where
  pub small : d.per_peer_window < u64_mod
  pub in_total : length d.inflight ≤ d.global_window
  pub in_slots : (a : SocketAddr) → flying a d.inflight ≤ slots a d.per_peer
  pub in_window : (a : SocketAddr) → slots a d.per_peer ≤ d.per_peer_window

flying-insert-le :
    (a : SocketAddr) (h : BlockHash) (r : Request) (m : List (BlockHash × Request))
    → flying a (insert h r m) ≤ flying a m + (if r.peer == a then 1 else 0)
unfolding flying insert
flying-insert-le a h r [] = ground arith
flying-insert-le a h r ((j, t) ∷ m) = ground (arith, flying-insert-le a h r m)

flying-remove-le :
    (a : SocketAddr) (h : BlockHash) (m : List (BlockHash × Request))
    → flying a (remove h m) ≤ flying a m
unfolding flying remove
flying-remove-le a h [] = omega arith
flying-remove-le a h ((j, t) ∷ m) = ground (arith, flying-remove-le a h m)

flying-remove :
    (a : SocketAddr) (h : BlockHash) (r : Request) (m : List (BlockHash × Request))
    → lookup h m ≡ some r
    → flying a (remove h m) + (if r.peer == a then 1 else 0) ≤ flying a m
unfolding flying remove lookup
flying-remove a h r [] e = absurd (none-some refl e)
flying-remove a h r ((j, t) ∷ m) e = ground (arith, flying-remove a h r m, flying-remove-le a h m)

slots-insert :
    (a b : SocketAddr) (n : ℕ) (m : List (SocketAddr × ℕ))
    → slots b (insert a n m) ≡ (if a == b then n else slots b m)
unfolding slots
slots-insert a b n m = ground (arith, lookup-insert a b n m)

slots-adjust :
    (a b n : ℕ) (m : List (SocketAddr × ℕ))
    → slots b (adjust a (λ c. c - n) m) ≡ slots b m - (if a == b then n else 0)
unfolding slots
slots-adjust a b n m = ground (arith, lookup-adjust a b (λ (c : ℕ). c - n) m)

assign-IsWithin :
    (now : ℕ) (addr : SocketAddr) (h : BlockHash) (d : Downloader)
    → IsWithin d
    → length d.inflight < d.global_window
    → slots addr d.per_peer < d.per_peer_window
    → IsWithin (assign now addr h d)
unfolding assign
assign-IsWithin now addr h d v k l = record {
  small = v.small;
  in_total = omega (arith, length-insert-le h r d.inflight);
  in_slots = λ a. ground (
    arith,
    flying-insert-le a h r d.inflight,
    slots-insert addr a n d.per_peer,
    v.in_slots a,
    v.small,
  );
  in_window = λ a. ground (arith, slots-insert addr a n d.per_peer, v.in_window a, v.small);
}
  where
    r : Request
    r = record { peer = addr; deadline = now + blk_timeout }

    n : ℕ
    n = add64 (slots addr d.per_peer) 1

poll_loop-IsWithin :
    (now : ℕ) (addr : SocketAddr) (q : List BlockHash) (d : Downloader)
    → IsWithin d
    → IsWithin (poll_loop now addr q d).0
unfolding poll_loop
poll_loop-IsWithin now addr [] d v = moved v
  where
    moved : IsWithin d → IsWithin (record d { queue = [] })
    moved w = record {
      small = w.small;
      in_total = w.in_total;
      in_slots = w.in_slots;
      in_window = w.in_window;
    }
poll_loop-IsWithin now addr (h ∷ q) d v =
    elim (Bool-cases (leb d.global_window (length d.inflight))) [
      | inl a ↦
          rw (a, poll_loop)
            (record {
              small = v.small;
              in_total = v.in_total;
              in_slots = v.in_slots;
              in_window = v.in_window;
            })
      | inr a ↦ elim (Bool-cases (leb d.per_peer_window (slots addr d.per_peer))) [
        | inl b ↦
            rw (a, b, poll_loop)
              (record {
                small = v.small;
                in_total = v.in_total;
                in_slots = v.in_slots;
                in_window = v.in_window;
              })
        | inr b ↦
            rw (a, b, poll_loop)
              (poll_loop-IsWithin now addr q (assign now addr h d)
                (assign-IsWithin now addr h d v (ground arith) (ground arith)))
      ]
    ]

-- `poll_assign` keeps the windows: in total and for each peer.
pub poll_assign-IsWithin :
    (d : Downloader) (addr : SocketAddr) (now : ℕ)
    → IsWithin d
    → IsWithin (poll_assign d addr now).0
unfolding poll_assign
poll_assign-IsWithin d addr now v = poll_loop-IsWithin now addr d.queue d v

poll_loop_split :
    (now : ℕ) (addr : SocketAddr) (q : List BlockHash) (d : Downloader)
    → q ≡ (poll_loop now addr q d).1 ++ (poll_loop now addr q d).0.queue
unfolding poll_loop
poll_loop_split now addr [] d = refl
poll_loop_split now addr (h ∷ q) d = elim (Bool-cases (leb d.global_window (length d.inflight))) [
  | inl a ↦ rw (a, poll_loop)
  | inr a ↦ elim (Bool-cases (leb d.per_peer_window (slots addr d.per_peer))) [
    | inl b ↦ rw (a, b, poll_loop)
    | inr b ↦ rw (a, b, poll_loop) (ap (◌∷◌ h) (poll_loop_split now addr q (assign now addr h d)))
  ]
]

poll_loop_full :
    (now : ℕ) (addr : SocketAddr) (q : List BlockHash) (d : Downloader)
    → ((poll_loop now addr q d).0.queue ≡ [])
      ⊎ (d.global_window ≤ length (poll_loop now addr q d).0.inflight)
      ⊎ (d.per_peer_window ≤ slots addr (poll_loop now addr q d).0.per_peer)
unfolding poll_loop assign
poll_loop_full now addr [] d = inl refl
poll_loop_full now addr (h ∷ q) d = elim (Bool-cases (leb d.global_window (length d.inflight))) [
  | inl a ↦ rw (a, poll_loop) (inr (inl (leb→le _ _ a)))
  | inr a ↦ elim (Bool-cases (leb d.per_peer_window (slots addr d.per_peer))) [
    | inl b ↦ rw (a, b, poll_loop) (inr (inr (leb→le _ _ b)))
    | inr b ↦ rw (a, b, poll_loop) (poll_loop_full now addr q (assign now addr h d))
  ]
]

-- `poll_assign` takes blocks off the front of the queue, in order, and stops only at an empty queue
-- or a full window.
pub poll_assign_lem :
    (d : Downloader) (addr : SocketAddr) (now : ℕ)
    → (d.queue ≡ (poll_assign d addr now).1 ++ (poll_assign d addr now).0.queue)
      × (((poll_assign d addr now).0.queue ≡ [])
          ⊎ (d.global_window ≤ length (poll_assign d addr now).0.inflight)
          ⊎ (d.per_peer_window ≤ slots addr (poll_assign d addr now).0.per_peer))
unfolding poll_assign
poll_assign_lem d addr now = (poll_loop_split now addr d.queue d, poll_loop_full now addr d.queue d)

-- A block that arrives frees its slot, and the windows hold.
pub complete-IsWithin : (d : Downloader) (h : BlockHash) → IsWithin d → IsWithin (complete d h)
unfolding complete
complete-IsWithin d h v = elim (Option-cases (lookup h d.inflight)) [
  | inl a ↦ rw (a, complete) v
  | inr (r, a) ↦
      rw (a, complete)
        (record {
          small = v.small;
          in_total = omega (arith, length-remove-le h d.inflight, v.in_total);
          in_slots = λ b. ground (
            arith,
            flying-remove b h r d.inflight a,
            slots-adjust r.peer b 1 d.per_peer,
            v.in_slots b,
          );
          in_window = λ b. ground (arith, slots-adjust r.peer b 1 d.per_peer, v.in_window b);
        })
]

flying-live-expired :
    (now : ℕ) (a : SocketAddr) (m : List (BlockHash × Request))
    → flying a (live now m) + flying a (expired now m) ≡ flying a m
unfolding flying live expired
flying-live-expired now a [] = omega arith
flying-live-expired now a ((h, r) ∷ m) = ground (arith, flying-live-expired now a m)

length-live-le : (now : ℕ) (m : List (BlockHash × Request)) → length (live now m) ≤ length m
unfolding live
length-live-le now [] = omega arith
length-live-le now ((h, r) ∷ m) = ground (arith, length-live-le now m)

slots-count_expired :
    (a : SocketAddr) (m : List (BlockHash × Request)) (dec : List (SocketAddr × ℕ))
    → slots a dec + flying a m < u64_mod
    → slots a (count_expired m dec) ≡ slots a dec + flying a m
unfolding flying count_expired
slots-count_expired a [] dec h = omega arith
slots-count_expired a ((j, r) ∷ m) dec h = ground (
  arith,
  slots-insert r.peer a (add64 (slots r.peer dec) 1) dec,
  slots-count_expired a m (insert r.peer (add64 (slots r.peer dec) 1) dec),
)

count_expired-IsDistinct :
    (m : List (BlockHash × Request)) (dec : List (SocketAddr × ℕ))
    → IsDistinct dec
    → IsDistinct (count_expired m dec)
unfolding count_expired
count_expired-IsDistinct [] dec h = h
count_expired-IsDistinct ((j, r) ∷ m) dec h =
    count_expired-IsDistinct m _ (insert-IsDistinct r.peer (add64 (slots r.peer dec) 1) dec h)

slots_empty : (a : SocketAddr) → slots a [] ≡ 0
unfolding slots lookup
slots_empty a = refl

slots-cons :
    (a b n : ℕ) (m : List (SocketAddr × ℕ))
    → slots a ((b, n) ∷ m) ≡ (if b == a then n else slots a m)
unfolding slots lookup
slots-cons a b n m = ground arith

slots_absent : (a : SocketAddr) (m : List (SocketAddr × ℕ)) → lookup a m ≡ none → slots a m ≡ 0
unfolding slots
slots_absent a m h = rw (h, slots) refl

slots-release_all :
    (a : SocketAddr) (dec per_peer : List (SocketAddr × ℕ))
    → IsDistinct dec
    → slots a (release_all dec per_peer) ≡ slots a per_peer - slots a dec
unfolding release_all
slots-release_all a [] pp h = omega (arith, slots_empty a)
slots-release_all a ((b, n) ∷ dec) pp h = ground (
  arith,
  slots-release_all a dec (adjust b (λ c. c - n) pp) h.1,
  slots-adjust b a n pp,
  slots-cons a b n dec,
  slots_absent b dec h.0,
)

slots-gone :
    (a : SocketAddr) (m : List (BlockHash × Request))
    → flying a m < u64_mod
    → slots a (count_expired m []) ≡ flying a m
slots-gone a m h = ground (arith, slots-count_expired a m [], slots_empty a)

-- Blocks that time out free exactly their slots, and the windows hold.
pub reassign_timeouts-IsWithin :
    (d : Downloader) (now : ℕ) → IsWithin d → IsWithin (reassign_timeouts d now).0
unfolding reassign_timeouts
reassign_timeouts-IsWithin d now v = record {
  small = v.small;
  in_total = omega (arith, length-live-le now d.inflight, v.in_total);
  in_slots = λ a. ground (
    arith,
    flying-live-expired now a d.inflight,
    slots-gone a gone,
    freed a,
    v.in_slots a,
    v.in_window a,
    v.small,
  );
  in_window = λ a. ground (arith, freed a, v.in_window a);
}
  where
    gone : List (BlockHash × Request)
    gone = expired now d.inflight

    dec : List (SocketAddr × ℕ)
    dec = count_expired gone []

    freed :
        (a : SocketAddr) → slots a (release_all dec d.per_peer) ≡ slots a d.per_peer - slots a dec
    freed a = slots-release_all a dec d.per_peer (count_expired-IsDistinct gone [] tt)

pub new_downloader-IsWithin : (a b : ℕ) → b < 2 ^ 64 → IsWithin (new_downloader a b)
unfolding new_downloader flying slots lookup
new_downloader-IsWithin a b h = record {
  small = h;
  in_total = omega arith;
  in_slots = λ c. omega arith;
  in_window = λ c. omega arith;
}

pub push_many-IsWithin :
    (hs : List BlockHash) (d : Downloader) → IsWithin d → IsWithin (push_many d hs)
unfolding push_many
push_many-IsWithin [] d v = v
push_many-IsWithin (h ∷ hs) d v =
    push_many-IsWithin hs
      (record d { queue = d.queue ++ h ∷ []; total_blocks = add64 d.total_blocks 1 })
      (record {
        small = v.small;
        in_total = v.in_total;
        in_slots = v.in_slots;
        in_window = v.in_window;
      })
