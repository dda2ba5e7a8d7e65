-- ===== src/Node/Main.antt =====
-- `main` of src/main.rs, from the start to the last drop of the kernel.
use Prim.Native.String.{String}
use btck_rust_node.Common.{
  ℕ, ◌≡◌, refl, sym, subst, Bool, true, false, Option, none, some, List, [], ◌∷◌, Result, ok, err,
  arith,
}
use btck_rust_node.Common.Int.{pos}
use btck_rust_node.ChainParams.{Network}
use btck_rust_node.Kernel.{Kernel}
use btck_rust_node.Kernel.Foreign.{
  Library, Process, Action, ◌>>=◌, ◌>>◌, pure, attempt, Handle, all_live,
}
use btck_rust_node.Kernel.Wrapper.{WrapperError, unwrap_or, drop_kernel, of_chainman}
use btck_rust_node.Kernel.Startup.{new_kernel}
use btck_rust_node.Kernel.Lifetime.{After, After-bind, After-map, Then, IsSound}
use btck_rust_node.Kernel.Session.{owned, New}
use btck_rust_node.Kernel.Genesis.{still_live}
use btck_rust_node.Kernel.Release.{new_kernel-New}
use btck_rust_node.Mempool.Pool.{with_kernel, set_kernel}
use btck_rust_node.Mempool.History.{sets_kernel, run, step}
use btck_rust_node.P2p.Headers.{PeerManager, with_start_height, with_block_processor}
use btck_rust_node.P2p.Headers.Phases.{Frame-IsPhased}
use btck_rust_node.P2p.Headers.Runs.{with_start_height-IsPhased}
use btck_rust_node.Rpc.Reads.{active_height-Reads}
use btck_rust_node.Node.{
  NodeEvent, NodeState, Setup, policy_for, p2p_network, starts_p2p, first_state, run_node,
  start_p2p, run_until, main_node,
}
use btck_rust_node.Node.Whole.{IsManaged, Goes, Whole, run_node-Goes, end_node}

module _ {W : Type 0} (lib : Library W) (setup : Setup) (chain : String) where
  -- The peer manager starts in its phases, and the process is only read.
  start_p2p-IsManaged :
      (p2p : Bool) (k : Kernel) (s : Process W)
      → (live : all_live (of_chainman k) s.live ≡ true)
      → (pm : Option PeerManager) × (start_p2p lib setup chain p2p k s ≡ some (ok pm, s))
        × IsManaged pm
  unfolding start_p2p with_block_processor
  start_p2p-IsManaged false k s live = (none, refl, tt)
  start_p2p-IsManaged true k s live =
      let (r, e) = active_height-Reads lib k s live in
      let net = p2p_network chain in
      let first : PeerManager =
        with_start_height (setup.genesis_hash net) (setup.checkpoint net) (setup.loaded net)
          (unwrap_or (pos 0) r) in
      (
        some (with_block_processor first),
        rw (e, attempt, ◌>>=◌) refl,
        Frame-IsPhased first _ (refl, refl, omega arith)
            (with_start_height-IsPhased (setup.genesis_hash net) (setup.checkpoint net)
              (setup.loaded net) (unwrap_or (pos 0) r)),
      )

  run_until-Whole :
      (p2p : Bool) (events : List NodeEvent) (base : List Handle) (k : Kernel) (t : Process W)
      → t.live ≡ owned lib k base
      → IsSound t
      → After (run_until lib setup chain p2p events k t) (Whole lib (policy_for chain) base)
  unfolding run_until first_state with_kernel run step set_kernel
  run_until-Whole p2p events base k t held sound =
      let (pm, e, managed) = start_p2p-IsManaged p2p k t (still_live lib k base t held) in
      let n : NodeState = record { app = first_state p2p chain k; pm = pm; last_headers_ts = 0 } in
      After-bind (start_p2p lib setup chain p2p k) rest t (Whole lib (policy_for chain) base) (
        subst (λ o. After o (Then rest (Whole lib (policy_for chain) base))) (sym e)
          (After-bind (run_node lib events n) last t (Whole lib (policy_for chain) base) (
            After-map (run_node lib events n t) ends (
              run_node-Goes lib (policy_for chain) base events n t
                (held, sound, ground arith, (sets_kernel k ∷ [], refl), managed)))))
    where
      last : NodeState → Action W WrapperError NodeState
      last n = drop_kernel lib k >> pure n

      rest : Option PeerManager → Action W WrapperError NodeState
      rest pm =
          run_node lib events
            (record { app = first_state p2p chain k; pm = pm; last_headers_ts = 0 })
          >>= last

      ends :
          (r : Result WrapperError NodeState) (u : Process W)
          → Goes lib (policy_for chain) base k r u
          → Then last (Whole lib (policy_for chain) base) r u
      ends (ok b) u h = end_node lib (policy_for chain) base k b u h
      ends (err e) u h = absurd h

  -- A run of the program, for any library, any directories and whatever peers and clients send until
  -- the shutdown, has a result: no call is given an object that is not live, and the loop of the peer
  -- manager does not panic. When the kernel comes up, the run ends with nothing new live, the pool's
  -- books are in order and its links without a cycle, and the peer manager keeps its phases; when it
  -- does not, what was live is unchanged, but for the error of a path with a zero byte, which leaves
  -- the context and the chain parameters.
  pub main_node-Whole :
      (genesis : Network → Option (List ℕ)) (peers : List String) (datadir blocksdir : List ℕ)
      (events : List NodeEvent) (s : Process W)
      → IsSound s
      → After
          (main_node lib genesis setup chain peers datadir blocksdir events s)
          (Whole lib (policy_for chain) s.live)
  unfolding main_node
  main_node-Whole genesis peers datadir blocksdir events s sound =
      After-bind (new_kernel lib genesis chain datadir blocksdir) rest s
        (Whole lib (policy_for chain) s.live)
        (After-map (new_kernel lib genesis chain datadir blocksdir s) go
          (new_kernel-New lib genesis chain datadir blocksdir s sound))
    where
      rest : Kernel → Action W WrapperError NodeState
      rest k = run_until lib setup chain (starts_p2p peers chain) events k

      go :
          (r : Result WrapperError Kernel) (t : Process W)
          → New lib s.live r t
          → Then rest (Whole lib (policy_for chain) s.live) r t
      go (ok k) t (held, now) = run_until-Whole (starts_p2p peers chain) events s.live k t held now
      go (err e) t h = h
