-- ===== src/Node/Fee.antt =====
-- What the fixed fee of `process_tx` in src/main.rs means for the pool.
use Prim.Native.String.{String}
use btck_rust_node.Common.{ℕ, ◌/◌, max, ◌≡◌, ◌≤◌, ◌<◌, ◌*◌, ap, ◌∙◌, subst, true, [], ok, arith}
use native.Mathlib.Nat.{le-div_iff_mul-le}
use btck_rust_node.Chain.{Txid, Transaction}
use btck_rust_node.Mempool.Entry.{new_entry}
use btck_rust_node.Mempool.Pool.{Mempool}
use btck_rust_node.Mempool.Books.{IsKept}
use btck_rust_node.Mempool.Outcome.{add_tx-eq-ok}
use btck_rust_node.Node.{policy_for, starts_p2p, process_tx}

known_chain_fee :
    (chain : String) → starts_p2p [] chain ≡ true → (policy_for chain).min_relay_fee ≡ 1
unfolding starts_p2p policy_for
known_chain_fee chain h = ground arith

-- On a chain that has seeds, in a pool with the policy of the chain and its books in order, a
-- transaction that the callback accepts has at most 1000 virtual bytes, whatever it pays: its fee
-- counts as 1000, and the pool asks for one satoshi per virtual byte.
pub process_tx-le :
    (chain : String) (m : Mempool) (tx : Transaction) (now : ℕ) {m' : Mempool} {k : Txid}
    → starts_p2p [] chain ≡ true
    → m.policy ≡ policy_for chain
    → IsKept m
    → process_tx m tx now ≡ (m', ok k)
    → tx.vsize ≤ 1000
unfolding process_tx new_entry
process_tx-le chain m tx now known same kept h =
    let pays : m.policy.min_relay_fee ≤ 1000 / max tx.vsize 1 =
      (add_tx-eq-ok m tx 1000 0 now kept h).1.pays in
    let rate : m.policy.min_relay_fee ≡ 1 =
      ap (λ p. p.min_relay_fee) same ∙ known_chain_fee chain known in
    let positive : 0 < max tx.vsize 1 = omega arith in
    let covered : 1 * max tx.vsize 1 ≤ 1000 =
      (le-div_iff_mul-le positive).0 (subst (λ r. r ≤ 1000 / max tx.vsize 1) rate pays) in
    omega (arith, covered)
