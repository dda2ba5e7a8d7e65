-- ===== src/Mempool/Limits.antt =====
-- src/mempool/policy.rs and src/mempool/entry.rs: what the limits accept, and how the statistics of
-- an entry move.
use btck_rust_node.Common.{
  ℕ, zero, suc, ◌%◌, leb→le, le→leb, ◌+◌, ◌-◌, ◌^◌, ◌≤◌, ◌<◌, ◌≡◌, ◌↔◌, refl, Bool, true, max, ok,
  arith, nat_key, ap, ◌∙◌,
}
use native.Mathlib.Nat.{le-div_iff_mul-le}
use btck_rust_node.Common.Int.{ℤ, pos, negsuc, ◌+ℤ◌}
use btck_rust_node.Common.Words.{
  u64_mod, as_i64, add_i64, neg_i64, abs_u64, saturating_mul, mul64, as_u64, max_zero,
}
use btck_rust_node.Chain.{Transaction}
use btck_rust_node.Mempool.Entry.{
  MempoolEntry, new_entry, fee_for_vsize, shift, update_descendant_state,
}
use btck_rust_node.Mempool.Policy.{
  MempoolPolicy, is_fee_acceptable, min_fee_for_size, check_ancestor_limits, check_rbf, min_bump,
}

max_pos : (v : ℕ) → 0 < v → max v 1 ≡ v
max_pos v h = omega arith

-- A transaction whose fee rate is acceptable pays the minimum fee for its size, and conversely.
-- (Fees below the largest u64, where `fee_for_vsize` saturates.)
pub is_fee_acceptable_iff :
    (p : MempoolPolicy) (tx : Transaction) (fee height now : ℕ)
    → 0 < tx.vsize
    → fee < u64_mod - 1
    → (is_fee_acceptable p (new_entry tx fee height now).fee_rate ≡ true)
      ↔ (min_fee_for_size p tx.vsize ≤ fee)
unfolding is_fee_acceptable min_fee_for_size fee_for_vsize new_entry
is_fee_acceptable_iff p tx fee height now h k = rw (max_pos tx.vsize h) (
  (λ a. omega (arith, leb→le _ _ a, (le-div_iff_mul-le h).0 (leb→le _ _ a))),
  λ a. le→leb _ _ ((le-div_iff_mul-le h).1 (omega arith)),
)

-- `check_ancestor_limits` accepts exactly the counts and sizes within both limits.
pub check_ancestor_limits_iff :
    (p : MempoolPolicy) (count size : ℕ)
    → (check_ancestor_limits p count size ≡ ok tt)
      ↔ ((count ≤ p.max_ancestors) × (size ≤ mul64 p.max_ancestor_size_kb 1024))
unfolding check_ancestor_limits
check_ancestor_limits_iff p count size = (λ h. ground arith, λ h. ground arith)

-- `check_rbf` accepts exactly when replacement is enabled and signalled, and the added fee covers
-- the incremental relay fee for the change of size.
pub check_rbf_iff :
    (p : MempoolPolicy) (signals : Bool) (fee_delta : ℕ) (size_delta : ℤ)
    → (check_rbf p signals fee_delta size_delta ≡ ok tt) ↔ (
        (p.enable_rbf ≡ true)
        × (signals ≡ true)
        × (saturating_mul p.incremental_relay_fee (abs_u64 size_delta) ≤ fee_delta))
unfolding check_rbf min_bump fee_for_vsize
check_rbf_iff p signals fee_delta size_delta = (λ h. ground arith, λ h. ground arith)

as_i64_small : (a : ℕ) → a < 2 ^ 63 → as_i64 a ≡ pos a
as_i64_small a h = ground arith

sum_pos : (a b : ℕ) → pos a +ℤ pos b ≡ pos (a + b)
sum_pos a b = ground arith

sum_neg : (a b : ℕ) → b < a → pos a +ℤ negsuc b ≡ pos (a - b - 1)
sum_neg a b h = ground arith

-- i64 addition, where the sum is a number below 2^63.
add_i64_pos : (a : ℕ) (d : ℤ) (n : ℕ) → pos a +ℤ d ≡ pos n → n < 2 ^ 63 → add_i64 (pos a) d ≡ pos n
add_i64_pos a d n e h =
    ap (λ t. as_i64 (as_u64 t)) e ∙ as_i64_small (n % u64_mod) (omega arith) ∙ ap pos (omega arith)

shift_to : (a : ℕ) (d : ℤ) (n : ℕ) → a < 2 ^ 63 → n < 2 ^ 63 → pos a +ℤ d ≡ pos n → shift a d ≡ n
unfolding shift
shift_to a d n h k e =
    ap (λ t. max_zero (add_i64 t d)) (as_i64_small a h) ∙ ap max_zero (add_i64_pos a d n e k)

neg_as_i64 : (b : ℕ) → 0 < b → b < 2 ^ 63 → neg_i64 (as_i64 b) ≡ negsuc (b - 1)
neg_as_i64 b p h = ap neg_i64 (as_i64_small b h) ∙ ground arith

neg_as_i64_zero : neg_i64 (as_i64 0) ≡ pos 0
neg_as_i64_zero = refl

-- A shift by a number and then by its negation gives the field back, while both stay below 2^62.
shift_twice :
    (a b : ℕ) → a < 2 ^ 62 → b < 2 ^ 62 → shift (shift a (as_i64 b)) (neg_i64 (as_i64 b)) ≡ a
shift_twice a zero h k =
    ap (λ t. shift t (neg_i64 (as_i64 0)))
      (shift_to a (as_i64 0) a (omega arith) (omega arith) (sum_pos a 0 ∙ ap pos (omega arith)))
    ∙ shift_to a (neg_i64 (as_i64 0)) a (omega arith) (omega arith)
        (sum_pos a 0 ∙ ap pos (omega arith))
shift_twice a (suc b) h k =
    ap (λ t. shift t (neg_i64 (as_i64 (suc b))))
      (ap (shift a) (as_i64_small (suc b) (omega arith))
        ∙ shift_to a (pos (suc b)) (a + suc b) (omega arith) (omega arith) (sum_pos a (suc b)))
    ∙ ap (shift (a + suc b)) (neg_as_i64 (suc b) (omega arith) (omega arith))
    ∙ shift_to (a + suc b) (negsuc (suc b - 1)) a (omega arith) (omega arith)
        (sum_neg (a + suc b) (suc b - 1) (omega arith) ∙ ap pos (omega arith))

-- What `add_tx` adds to the statistics of a parent `remove_tx` takes away again.
pub update_descendant_state_undo :
    (e : MempoolEntry) (size fee : ℕ)
    → e.descendant_size < 2 ^ 62
    → e.descendant_fees < 2 ^ 62
    → e.descendant_count < 2 ^ 62
    → size < 2 ^ 62
    → fee < 2 ^ 62
    → update_descendant_state
        (update_descendant_state e (as_i64 size) (as_i64 fee) (pos 1))
        (neg_i64 (as_i64 size))
        (neg_i64 (as_i64 fee))
        (negsuc 0)
      ≡ e
unfolding update_descendant_state
update_descendant_state_undo e size fee h i j k l = λ r. record e {
  descendant_size = shift_twice e.descendant_size size h k r;
  descendant_fees = shift_twice e.descendant_fees fee i l r;
  descendant_count = shift_twice e.descendant_count 1 j (omega arith) r;
}
