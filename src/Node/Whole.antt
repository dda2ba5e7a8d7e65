-- ===== src/Node/Whole.antt =====
-- The state of the node through a whole run: the kernel's objects, the pool and the server together.
use btck_rust_node.Common.{
  Option-cases, inl, inr, ℕ, ◌≡◌, ◌≤◌, refl, sym, ap, ◌∙◌, subst, Option, none, some, List, [], ◌∷◌,
  ◌++◌, Result, ok, err, arith,
}
use btck_rust_node.Chain.{Transaction}
use btck_rust_node.Kernel.{Kernel}
use btck_rust_node.Kernel.Foreign.{Handle, Library, Process, Action, ◌>>=◌, ◌>>◌, pure}
use btck_rust_node.Kernel.Wrapper.{WrapperError, process_block, drop_kernel}
use btck_rust_node.Kernel.Lifetime.{After, After-bind, After-map, Then, IsSound}
use btck_rust_node.Kernel.Calls.{process_block-Keeps}
use btck_rust_node.Kernel.Session.{owned, Left}
use btck_rust_node.Kernel.Genesis.{drop_held, still_live}
use btck_rust_node.Mempool.Policy.{MempoolPolicy}
use btck_rust_node.Mempool.Pool.{Mempool, new_pool}
use btck_rust_node.Mempool.Books.{IsKept}
use btck_rust_node.Mempool.History.{Call, adds, run, step, run-new_pool-IsKept}
use btck_rust_node.Mempool.Order.{IsForest, run-new_pool-IsForest}
use btck_rust_node.P2p.Headers.{PeerManager}
use btck_rust_node.P2p.Headers.Events.{Event, Handled}
use btck_rust_node.P2p.Headers.Events as P2p
use btck_rust_node.P2p.Headers.Phases.{IsPhased, Holds}
use btck_rust_node.P2p.Headers.Runs.{step-IsPhased}
use btck_rust_node.Rpc.{AppState}
use btck_rust_node.Rpc.Reads.{handle-Reads}
use btck_rust_node.Rpc.Served.{after-Served}
use btck_rust_node.Node.{
  NodeEvent, gets_tx, gets_block, gets_request, process_tx, ignore, node_step, run_node, NodeState,
  gets_message, loop_step, must,
}

-- The pool is one that calls lead to from a new one.
abbrev pub IsReached : MempoolPolicy → Mempool → Type 0
IsReached policy m = (cs : List Call) × (m ≡ run cs (new_pool policy))

run-append : (cs : List Call) (c : Call) (m : Mempool) → run (cs ++ c ∷ []) m ≡ step (run cs m) c
unfolding run
run-append [] c m = refl
run-append (d ∷ cs) c m = run-append cs c (step m d)

process_tx-IsReached :
    (policy : MempoolPolicy) (m : Mempool) (tx : Transaction) (now : ℕ)
    → IsReached policy m
    → IsReached policy (process_tx m tx now).0
unfolding process_tx step
process_tx-IsReached policy m tx now (cs, e) = (
  cs ++ adds tx 1000 0 now ∷ [],
  ap (λ p. step p (adds tx 1000 0 now)) e
      ∙ sym (run-append cs (adds tx 1000 0 now) (new_pool policy)),
)

module _ {W E F A : Type 0} where
  After-ignore :
      (m : Action W E A) (s : Process W) (Q : Result F (Unit {0}) → Process W → Type 0)
      → After (m s) (λ r t. Q (ok tt) t)
      → After (ignore m s) Q
  After-ignore m s Q h = from (m s) h
    where
      from :
          (o : Option (Result E A × Process W))
          → After o (λ r t. Q (ok tt) t)
          → After (elim o [ none ↦ none | some (r, t) ↦ some (ok tt, t) ]) Q
      from none h = h
      from (some (r, t)) h = h

-- The peer manager, if there is one, keeps its phases.
abbrev pub IsManaged : Option PeerManager → Type 0
IsManaged none = Unit
IsManaged (some m) = IsPhased m

abbrev Loops : AppState → Option NodeState → Type 0
Loops a none = ⊥
Loops a (some n) = (n.app ≡ a) × IsManaged n.pm

loop_step-Loops :
    (e : Event) (a : AppState) (pm : Option PeerManager) (ts : ℕ)
    → IsManaged pm
    → Loops a (loop_step e (record { app = a; pm = pm; last_headers_ts = ts }))
loop_step-Loops e a none ts h = (refl, tt)
loop_step-Loops e a (some m) ts h = elim (Option-cases (P2p.step e ts m)) [
  | inl q ↦ absurd (subst Holds q (step-IsPhased e ts m h))
  | inr (r, q) ↦ rw (q, loop_step) (refl, subst Holds q (step-IsPhased e ts m h))
]

module _ {W : Type 0} (lib : Library W) (policy : MempoolPolicy) (base : List Handle) where
  -- The kernel's three objects are live, a reference to it is held, the pool is reached, and the peer
  -- manager keeps its phases.
  abbrev pub IsRunning : NodeState → Process W → Type 0
  IsRunning n t =
      (t.live ≡ owned lib n.app.kernel base)
      × IsSound t
      × (1 ≤ n.app.arcs)
      × IsReached policy n.app.mempool
      × IsManaged n.pm

  -- The step goes on from a running node to a running node with the same kernel.
  abbrev pub Goes : Kernel → Result WrapperError NodeState → Process W → Type 0
  Goes k (ok b) t = (b.app.kernel ≡ k) × IsRunning b t
  Goes k (err e) t = ⊥

  must-Goes :
      (o : Option NodeState) (n : NodeState) (s : Process W)
      → Loops n.app o
      → IsRunning n s
      → After (must o s) (Goes n.app.kernel)
  must-Goes none n s l h = l
  must-Goes (some m) n s (same, managed) (held, sound, arcs, reached, old) = (
    ap (λ a. a.kernel) same,
    subst
        (λ (a : AppState).
          (s.live ≡ owned lib a.kernel base)
          × IsSound s
          × (1 ≤ a.arcs)
          × IsReached policy a.mempool
          × IsManaged m.pm)
        (sym same) (held, sound, arcs, reached, managed),
  )

  node_step-Goes :
      (e : NodeEvent) (n : NodeState) (s : Process W)
      → IsRunning n s
      → After (node_step lib e n s) (Goes n.app.kernel)
  unfolding node_step
  node_step-Goes (gets_tx tx now) n s (held, sound, arcs, reached, managed) =
      (refl, (held, sound, arcs, process_tx-IsReached policy n.app.mempool tx now reached, managed))
  node_step-Goes (gets_block raw) n s (held, sound, arcs, reached, managed) =
      let k = n.app.kernel in
      After-bind (ignore (process_block lib k raw)) (λ u. pure n) s (Goes k)
        (After-ignore (process_block lib k raw) s (Then {B = NodeState} (λ u. pure n) (Goes k)) (
          After-map (process_block lib k raw s)
            (λ r t kept. (refl, (kept.0 ∙ held, kept.1, arcs, reached, managed)))
            (process_block-Keeps lib k raw s sound (still_live lib k base s held))))
  node_step-Goes (gets_request r) n s (held, sound, arcs, reached, managed) =
      let (answer, e) = handle-Reads lib n.app r arcs s (still_live lib n.app.kernel base s held) in
      let kept = after-Served n.app r in
      rw (e, ignore, ◌>>=◌)
        (
          kept.0,
          (
            held ∙ ap (λ k. owned lib k base) (sym kept.0),
            sound,
            omega (arith, kept.2, arcs),
            (reached.0, kept.1 ∙ reached.1),
            managed,
          ),
        )
  node_step-Goes (gets_message e) n s h =
      must-Goes (loop_step e n) n s (loop_step-Loops e n.app n.pm n.last_headers_ts h.4) h

  same-Goes :
      (j k : Kernel) (r : Result WrapperError NodeState) (u : Process W)
      → j ≡ k
      → Goes j r u
      → Goes k r u
  same-Goes j k (ok c) u same (again, h) = (again ∙ same, h)
  same-Goes j k (err e) u same h = h

  Then-Goes :
      (es : List NodeEvent) (k : Kernel)
      → ((b : NodeState) (t : Process W)
          → IsRunning b t
          → After (run_node lib es b t) (Goes b.app.kernel))
      → (r : Result WrapperError NodeState) (t : Process W) → Goes k r t
      → Then (run_node lib es) (Goes k) r t
  Then-Goes es k rest (ok b) t (same, h) =
      After-map (run_node lib es b t) (λ r u. same-Goes b.app.kernel k r u same) (rest b t h)
  Then-Goes es k rest (err e) t h = absurd h

  pub run_node-Goes :
      (es : List NodeEvent) (n : NodeState) (s : Process W)
      → IsRunning n s
      → After (run_node lib es n s) (Goes n.app.kernel)
  unfolding run_node
  run_node-Goes [] n s h = (refl, h)
  run_node-Goes (e ∷ es) n s h =
      After-bind (node_step lib e n) (run_node lib es) s (Goes n.app.kernel) (
        After-map (node_step lib e n s) (Then-Goes es n.app.kernel (run_node-Goes es))
          (node_step-Goes e n s h))

  -- What a run of the program leaves.
  abbrev pub Whole : Result WrapperError NodeState → Process W → Type 0
  Whole (ok n) t =
      (t.live ≡ base) × IsKept n.app.mempool × IsForest n.app.mempool.entries × IsManaged n.pm
  Whole (err e) t = Left lib base e t.live

  pub end_node :
      (k : Kernel) (b : NodeState) (u : Process W)
      → (b.app.kernel ≡ k) × IsRunning b u
      → After ((drop_kernel lib k >> pure b) u) Whole
  end_node k b u (same, (held, sound, arcs, (cs, e), managed)) =
      After-bind (drop_kernel lib k) (λ x. pure b) u Whole
        (After-map (drop_kernel lib k u) go
          (drop_held lib k base u (held ∙ ap (λ j. owned lib j base) same) sound))
    where
      go :
          (r : Result WrapperError (Unit {0})) (t : Process W)
          → (r ≡ ok tt) × (t.live ≡ base)
          → Then {B = NodeState} (λ x. pure b) Whole r t
      go (ok x) t (q, gone) = (
        gone,
        subst IsKept (sym e) (run-new_pool-IsKept policy cs),
        subst (λ m. IsForest m.entries) (sym e) (run-new_pool-IsForest policy cs),
        managed,
      )
      go (err d) t (q, gone) = absurd (ground arith)
