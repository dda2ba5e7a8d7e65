-- ===== src/Mempool/Fees/Runs.antt =====
-- Runs of the fee estimator (src/mempool/fees.rs): it does not panic, and stays within its bounds.
use btck_rust_node.Common.{
  ℕ, zero, suc, ◌≤◌, ◌≡◌, ◌⊎◌, inl, inr, refl, ap, ◌∙◌, subst, ◌-◌, Option, none, some, List, [],
  ◌∷◌, map, length, All, Has, nat_key, ltb, if-elim, arith, Option-cases,
}
use btck_rust_node.Mempool.Entry.{FeeRate}
use btck_rust_node.Mempool.Fees.{
  FeeEstimator, new_estimator, add_rate, confirm_first, confirm_tx, update_height,
  estimate_fee_for_target, set_fallback_fee, clear_estimator, replicate,
}
use btck_rust_node.Mempool.Fees.Shape.{
  IsShaped, trim-le, drop_before-le, length-confirm_first, length-reverse_aux,
  count_confirmation-total, estimate_fee_for_target-total,
}
use mathlib.Core.List.{reverse}

-- The calls that change an estimator.
pub data Call : Type 0 where
  enters : FeeRate → ℕ → Call
  confirms : FeeRate → ℕ → Call
  sets_height : ℕ → ℕ → Call
  sets_fallback : FeeRate → Call
  clears : Call

unfoldable pub step : FeeEstimator → Call → Option FeeEstimator
step s (enters rate now) = some (add_rate s rate now)
step s (confirms rate height) = confirm_tx s rate height
step s (sets_height height now) = some (update_height s height now)
step s (sets_fallback rate) = some (set_fallback_fee s rate)
step s clears = some (clear_estimator s)

unfoldable pub run : List Call → FeeEstimator → Option FeeEstimator
run [] s = some s
run (c ∷ cs) s = elim (step s c) [ none ↦ none | some s' ↦ run cs s' ]

zeroed_width :
    (w : ℕ) (t : List (List ℕ))
    → All (λ r. length r ≡ w) t
    → All (λ r. length r ≡ w) (map (map (λ (count : ℕ). zero)) t)
zeroed_width w [] h = tt
zeroed_width w (r ∷ t) h = (length-zeros r ∙ h.0, zeroed_width w t h.1)
  where
    length-zeros : (r : List ℕ) → length (map (λ (count : ℕ). zero) r) ≡ length r
    length-zeros [] = refl
    length-zeros (c ∷ cs) = ap suc (length-zeros cs)

zeroed_length : (t : List (List ℕ)) → length (map (map (λ (count : ℕ). zero)) t) ≡ length t
zeroed_length [] = refl
zeroed_length (r ∷ t) = ap suc (zeroed_length t)

-- What a step gives: no panic, and an estimator in shape.
abbrev Goes : ℕ → Option FeeEstimator → Type 0
Goes w none = ⊥
Goes w (some s) = IsShaped w s

add_rate-IsShaped :
    (w : ℕ) (s : FeeEstimator) (rate now : ℕ) → IsShaped w s → IsShaped w (add_rate s rate now)
unfolding add_rate
add_rate-IsShaped w s rate now v =
    if-elim (IsShaped w) (ltb rate s.min_tracked_fee) (λ a. v)
      (λ a. record {
        bounded = trim-le s.max_history _;
        some_bucket = v.some_bucket;
        small = v.small;
        rows = v.rows;
        width = v.width;
      })

confirm_tx-Goes :
    (w : ℕ) (s : FeeEstimator) (rate height : ℕ) → IsShaped w s → Goes w (confirm_tx s rate height)
unfolding confirm_tx
confirm_tx-Goes w s rate height v =
    let t = count_confirmation-total w s rate height v in
    rw (t.1, confirm_tx)
      (record {
        bounded = omega (
          arith,
          v.bounded,
          length-reverse_aux (confirm_first rate height (reverse s.history)) [],
          length-confirm_first rate height (reverse s.history),
          length-reverse_aux s.history [],
        );
        some_bucket = v.some_bucket;
        small = v.small;
        rows = t.2 ∙ v.rows;
        width = t.3;
      })

step-Goes : (w : ℕ) (s : FeeEstimator) (c : Call) → IsShaped w s → Goes w (step s c)
unfolding step update_height set_fallback_fee clear_estimator
step-Goes w s (enters rate now) v = add_rate-IsShaped w s rate now v
step-Goes w s (confirms rate height) v = confirm_tx-Goes w s rate height v
step-Goes w s (sets_height height now) v = record {
  bounded = omega (arith, drop_before-le (now - 86400) s.history, v.bounded);
  some_bucket = v.some_bucket;
  small = v.small;
  rows = v.rows;
  width = v.width;
}
step-Goes w s (sets_fallback rate) v = record {
  bounded = v.bounded;
  some_bucket = v.some_bucket;
  small = v.small;
  rows = v.rows;
  width = v.width;
}
step-Goes w s clears v = record {
  bounded = omega arith;
  some_bucket = v.some_bucket;
  small = v.small;
  rows = zeroed_length s.confirmations ∙ v.rows;
  width = zeroed_width w s.confirmations v.width;
}

run-Goes : (w : ℕ) (cs : List Call) (s : FeeEstimator) → IsShaped w s → Goes w (run cs s)
unfolding run
run-Goes w [] s v = v
run-Goes w (c ∷ cs) s v = elim (Option-cases (step s c)) [
  | inl a ↦ absurd (subst (Goes w) a (step-Goes w s c v))
  | inr (s', a) ↦ rw (a, run) (run-Goes w cs s' (subst (Goes w) a (step-Goes w s c v)))
]

All-replicate : {A : Type 0} (P : A → Type 0) (n : ℕ) (a : A) → P a → All P (replicate n a)
All-replicate P zero a h = tt
All-replicate P (suc n) a h = (h, All-replicate P n a h)

new_estimator-IsShaped : IsShaped 25 new_estimator
unfolding new_estimator
new_estimator-IsShaped = record {
  bounded = omega arith;
  some_bucket = omega arith;
  small = omega arith;
  rows = refl;
  width = All-replicate (λ (r : List ℕ). length r ≡ 25) 13 (replicate 25 0) refl;
}

-- After any calls on a new estimator no index has been out of range, and the history is within its
-- bound; any estimate then is made without a panic, and is the fallback fee or a bucket's fee.
pub run-new_estimator-total :
    (cs : List Call) (target : ℕ)
    → (s : FeeEstimator) × (run cs new_estimator ≡ some s)
      × (length s.history ≤ s.max_history)
      × ((r : FeeRate) × (estimate_fee_for_target s target ≡ some r)
          × ((r ≡ s.fallback_fee) ⊎ Has r s.buckets))
run-new_estimator-total cs target = elim (Option-cases (run cs new_estimator)) [
  | inl a ↦ absurd (subst (Goes 25) a (run-Goes 25 cs new_estimator new_estimator-IsShaped))
  | inr (s, a) ↦
      let v : IsShaped 25 s =
        subst (Goes 25) a (run-Goes 25 cs new_estimator new_estimator-IsShaped) in
      (s, a, v.bounded, estimate_fee_for_target-total 25 s target v)
]
