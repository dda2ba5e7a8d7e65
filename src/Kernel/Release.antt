-- ===== src/Kernel/Release.antt =====
-- `Kernel::new` with its genesis block, and a session to its end.
use Prim.Native.String.{String}
use btck_rust_node.Common.{
  ℕ, ◌≡◌, refl, sym, ◌∙◌, subst, Option, List, nat_key, Result, ok, err, arith, if-elim, any, ◌==◌,
}
use btck_rust_node.ChainParams.{Network}
use btck_rust_node.Kernel.{Kernel}
use btck_rust_node.Kernel.Foreign.{Handle, Library, Process, Action, ◌>>=◌}
use btck_rust_node.Kernel.Wrapper.{WrapperError, nul_byte, lift, c_string, chain_type, drop_kernel}
use btck_rust_node.Kernel.Startup.{
  Request, open_context, open_manager, open_chainman, check_genesis, new_kernel, session,
  perform_each,
}
use btck_rust_node.Kernel.Calls.{IsKept, perform_each-IsKept}
use btck_rust_node.Kernel.Lifetime.{After, After-bind, After-map, After-and, Then, IsSound}
use btck_rust_node.Kernel.Session.{
  owned, Opened, open_context-Opened, open_context-IsNamed, IsNamed, are_apart, Left, Left-other,
  New, open_manager-New, opened_state,
}
use btck_rust_node.Kernel.Genesis.{Ready, check_genesis-Ready, drop_held, still_live}

module _ {W : Type 0} (lib : Library W) where
  Ready-New :
      (base : List Handle) (r : Result WrapperError Kernel) (t : Process W)
      → Ready lib base r t
      → New lib base r t
  Ready-New base (ok k) t h = h
  Ready-New base (err e) t (same, h) = subst (λ d. Left lib base d t.live) (sym same) h

  c_string-After :
      (bytes : List ℕ) (f : List ℕ → Action W WrapperError Kernel) (s : Process W)
      (Q : Result WrapperError Kernel → Process W → Type 0)
      → Q (err nul_byte) s
      → ((c : List ℕ) → After (f c s) Q)
      → After ((lift (c_string bytes) >>= f) s) Q
  unfolding c_string
  c_string-After bytes f s Q fails goes =
      if-elim (λ (r : Result WrapperError (List ℕ)). After ((lift r >>= f) s) Q)
        (any (λ b. b == 0) bytes) (λ a. fails) (λ a. goes bytes)

  module _ (genesis : Network → Option (List ℕ)) (n ctx params : ℕ) (base : List Handle) where
    abbrev checks : Kernel → Action W WrapperError Kernel
    checks k = check_genesis lib genesis k n

    open_manager-Then :
        (data_c blocks_c : List ℕ) (s : Process W)
        → IsSound (opened_state lib ctx params base s)
        → After
            (open_manager lib ctx params data_c blocks_c (opened_state lib ctx params base s))
            (Then checks (New lib base))
    open_manager-Then data_c blocks_c s sound =
        After-map (open_manager lib ctx params data_c blocks_c (opened_state lib ctx params base s))
          go
          (open_manager-New lib ctx params base data_c blocks_c s
            (are_apart lib ctx params base s sound))
      where
        go :
            (r : Result WrapperError Kernel) (t : Process W)
            → New lib base r t
            → Then checks (New lib base) r t
        go (ok k) t (held, now) =
            After-map (check_genesis lib genesis k n t) (Ready-New base)
              (check_genesis-Ready lib k base genesis n t held now)
        go (err e) t h = h

    -- From the paths to the end of `new`.
    open_chainman-New :
        (datadir blocksdir : List ℕ) (s : Process W)
        → IsSound (opened_state lib ctx params base s)
        → After
            ((open_chainman lib (ctx, params) datadir blocksdir >>= checks)
              (opened_state lib ctx params base s))
            (New lib base)
    unfolding open_chainman
    open_chainman-New datadir blocksdir s sound =
        let t = opened_state lib ctx params base s in
        After-bind (open_chainman lib (ctx, params) datadir blocksdir) checks t (New lib base) (
          c_string-After datadir second t (Then checks (New lib base)) (ctx, params, refl)
            λ d.
              c_string-After blocksdir (open_manager lib ctx params d) t
                (Then checks (New lib base)) (ctx, params, refl) λ c. open_manager-Then d c s sound)
      where
        second : List ℕ → Action W WrapperError Kernel
        second d = lift (c_string blocksdir) >>= open_manager lib ctx params d

  -- What a session leaves: nothing new, but for that error.
  abbrev pub Released : List Handle → Result WrapperError (Unit {0}) → Process W → Type 0
  Released base (ok u) t = t.live ≡ base
  Released base (err e) t = Left lib base e t.live

  module _ (genesis : Network → Option (List ℕ)) (chain : String) (datadir blocksdir : List ℕ) where
    -- `Kernel::new` has a result for any library: a kernel whose three objects are live, or an error
    -- that leaves what was live before, but for the error of a path with a zero byte, which leaves
    -- the context and the chain parameters.
    pub new_kernel-New :
        (s : Process W)
        → IsSound s
        → After (new_kernel lib genesis chain datadir blocksdir s) (New lib s.live)
    unfolding new_kernel
    new_kernel-New s sound =
        After-bind (open_context lib (chain_type chain)) rest s (New lib s.live) (
          After-map (open_context lib (chain_type chain) s) go (
            After-and (open_context lib (chain_type chain) s) (Opened lib s) (λ r t. IsNamed lib r)
              (open_context-Opened lib (chain_type chain) s sound)
              (open_context-IsNamed lib (chain_type chain) s sound)))
      where
        rest : ℕ × ℕ → Action W WrapperError Kernel
        rest opened = open_chainman lib opened datadir blocksdir >>= λ k.
            check_genesis lib genesis k (chain_type chain)

        go :
            (r : Result WrapperError (ℕ × ℕ)) (t : Process W)
            → Opened lib s r t × IsNamed lib r
            → Then rest (New lib s.live) r t
        go (ok (ctx, params)) t ((held, now), named) =
            subst
              (λ l.
                IsSound (record t { live = l })
                → After (rest (ctx, params) (record t { live = l })) (New lib s.live))
              (sym held)
              (open_chainman-New genesis (chain_type chain) ctx params s.live datadir blocksdir t)
              now
        go (err e) t h = Left-other lib s.live e t.live h.1 h.0.0

    end_session :
        (k : Kernel) (requests : List Request) (base : List Handle) (s : Process W)
        → s.live ≡ owned lib k base
        → IsSound s
        → After ((perform_each lib k requests >>= λ u. drop_kernel lib k) s) (Released base)
    end_session k requests base s held sound =
        After-bind (perform_each lib k requests) (λ u. drop_kernel lib k) s (Released base)
          (After-map (perform_each lib k requests s) go
            (perform_each-IsKept lib k requests s sound (still_live lib k base s held)))
      where
        released :
            (r : Result WrapperError (Unit {0})) (t : Process W)
            → (r ≡ ok tt) × (t.live ≡ base)
            → Released base r t
        released (ok u) t h = h.1
        released (err e) t h = absurd (ground arith)

        go :
            (r : Result WrapperError (Unit {0})) (t : Process W)
            → (r ≡ ok tt) × IsKept s t
            → Then {B = Unit {0}} (λ u. drop_kernel lib k) (Released base) r t
        go (ok u) t (e, kept) =
            After-map (drop_kernel lib k t) released (drop_held lib k base t (kept.0 ∙ held) kept.1)
        go (err d) t (e, kept) = absurd (ground arith)

    -- A session has a result for any library and any calls, so that no call is given an object that
    -- is not live. It leaves the live objects as they were, but for the error of a path with a zero
    -- byte, which leaves the context and the chain parameters.
    pub session-Released :
        (requests : List Request) (s : Process W)
        → IsSound s
        → After (session lib genesis chain datadir blocksdir requests s) (Released s.live)
    unfolding session
    session-Released requests s sound =
        After-bind (new_kernel lib genesis chain datadir blocksdir) rest s (Released s.live)
          (After-map (new_kernel lib genesis chain datadir blocksdir s) go (new_kernel-New s sound))
      where
        rest : Kernel → Action W WrapperError (Unit {0})
        rest k = perform_each lib k requests >>= λ u. drop_kernel lib k

        go :
            (r : Result WrapperError Kernel) (t : Process W)
            → New lib s.live r t
            → Then rest (Released s.live) r t
        go (ok k) t (held, now) = end_session k requests s.live t held now
        go (err e) t h = h
