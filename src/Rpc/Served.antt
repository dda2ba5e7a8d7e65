-- ===== src/Rpc/Served.antt =====
-- Requests in any order: what they are answered, and when the shutdown signal is sent.
use btck_rust_node.Common.{
  ◌≡◌, ◌≤◌, ◌+◌, refl, ap, ◌∙◌, Bool, true, false, ◌&&◌, ◌||◌, not, some, List, [], ◌∷◌,
  if◌then◌else◌, Result, ok, arith, length, any, Bool-cases, inl, inr,
}
use btck_rust_node.Kernel.Foreign.{Library, Process, ◌>>=◌, attempt, all_live}
use btck_rust_node.Kernel.Wrapper.{of_chainman}
use btck_rust_node.Rpc.{AppState, Answer, StatusCode, RpcRequest, stop, after, serve}
use btck_rust_node.Rpc.Reads.{handle-Reads}

abbrev pub is_stop : RpcRequest → Bool
is_stop stop = true
is_stop _ = false

-- What requests leave of the state: a signal, if the sender is there and one of them is `stop`.
abbrev pub Served : AppState → Bool → AppState → Type 0
Served state stops final =
    (final.kernel ≡ state.kernel)
    × (final.mempool ≡ state.mempool)
    × (final.arcs ≡ state.arcs)
    × (final.shutdown_tx ≡ (state.shutdown_tx && not stops))
    × (final.signals ≡ state.signals + (if state.shutdown_tx && stops then 1 else 0))

pub after-Served : (state : AppState) (r : RpcRequest) → Served state (is_stop r) (after state r)
unfolding after
after-Served state stop = elim (Bool-cases state.shutdown_tx) [
  | inl a ↦ rw a (refl, refl, refl, refl, omega arith)
  | inr a ↦ rw a (refl, refl, refl, refl, omega arith)
]
after-Served state _ = (refl, refl, refl, ground arith, ground arith)

join-Served :
    (state mid final : AppState) (b c : Bool)
    → Served state b mid
    → Served mid c final
    → Served state (b || c) final
join-Served state mid final b c p q =
    (q.0 ∙ p.0, q.1 ∙ p.1, q.2 ∙ p.2, ground (arith, q.3, p.3), ground (arith, q.4, p.4, p.3))

module _ {W : Type 0} (lib : Library W) where
  -- Requests of any kind, while the kernel's chainstate manager is live and a reference to the kernel
  -- stands outside the request, are each answered, and leave the whole process and the pool as they
  -- are: also `flushstate`, which neither flushes nor destroys anything. The shutdown signal is sent
  -- once if one of them is `stop` and it was not sent before, and else not.
  pub serve-Served :
      (rs : List RpcRequest) (state : AppState) (s : Process W)
      → 1 ≤ state.arcs
      → all_live (of_chainman state.kernel) s.live ≡ true
      → (answers : List (Result StatusCode Answer)) × (final : AppState) × (serve lib rs state s
          ≡ some (ok (answers, final), s))
        × (length answers ≡ length rs)
        × Served state (any is_stop rs) final
  unfolding serve
  serve-Served [] state s held live =
      ([], state, refl, refl, (refl, refl, refl, ground arith, ground arith))
  serve-Served (r ∷ rs) state s held live =
      let (answer, e) = handle-Reads lib state r held s live in
      let mid = after-Served state r in
      let (answers, final, run, len, rest) =
        serve-Served rs (after state r) s (omega (arith, mid.2, held))
          (ap (λ k. all_live (of_chainman k) s.live) mid.0 ∙ live) in
      (
        answer ∷ answers,
        final,
        rw (e, attempt, ◌>>=◌, run) refl,
        omega (arith, len),
        join-Served state (after state r) final (is_stop r) (any is_stop rs) mid rest,
      )
