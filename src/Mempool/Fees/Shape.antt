-- ===== src/Mempool/Fees/Shape.antt =====
-- The tables of the fee estimator (src/mempool/fees.rs) keep their shape, so that no index is out of
-- range.
use btck_rust_node.Common.{
  ℕ, zero, suc, ◌+◌, ◌-◌, ◌≤◌, ◌<◌, ◌≡◌, ◌⊎◌, inl, inr, refl, ap, ◌∙◌, none, some, List, [], ◌∷◌,
  length, get_elem?, All, Has, nat_key, ltb, leb, ◌==◌, arith, Bool-cases,
}
use btck_rust_node.Common.Words.{sub64, u64_mod}
use btck_rust_node.Mempool.Entry.{FeeRate}
use btck_rust_node.Mempool.Fees.{
  HistoricalTx, FeeEstimator, trim, find_bucket_from, find_bucket, bump_at, bump_cell,
  confirm_first, targets, count_confirmation, drop_before, scan_buckets, bucket_rows,
  estimate_fee_for_target,
}
use mathlib.Core.List.{reverse, reverse_aux}

-- The history is within its bound, and the table has a row for each bucket, all of one width.
pub record IsShaped (w : ℕ) (s : FeeEstimator) : Type 0 where
  pub bounded : length s.history ≤ s.max_history
  pub some_bucket : 0 < length s.buckets
  pub small : length s.buckets < u64_mod
  pub rows : length s.confirmations ≡ length s.buckets
  pub width : All (λ row. length row ≡ w) s.confirmations

pub trim-le : (limit : ℕ) (ts : List HistoricalTx) → length (trim limit ts) ≤ limit
unfolding trim
trim-le limit [] = omega arith
trim-le limit (t ∷ ts) = ground (arith, trim-le limit ts)

pub drop_before-le :
    (cutoff : ℕ) (ts : List HistoricalTx) → length (drop_before cutoff ts) ≤ length ts
unfolding drop_before
drop_before-le cutoff [] = omega arith
drop_before-le cutoff (t ∷ ts) = ground (arith, drop_before-le cutoff ts)

pub length-confirm_first :
    (rate height : ℕ) (ts : List HistoricalTx) → length (confirm_first rate height ts) ≡ length ts
unfolding confirm_first
length-confirm_first rate height [] = refl
length-confirm_first rate height (t ∷ ts) = ground (arith, length-confirm_first rate height ts)

find_bucket_from-lt :
    (n last i : ℕ) (fees : List ℕ) (v : ℕ)
    → last < n
    → i + length fees ≤ n
    → find_bucket_from last i fees v < n
unfolding find_bucket_from
find_bucket_from-lt n last i [] v a b = a
find_bucket_from-lt n last i (fee ∷ fees) v a b =
    ground (arith, find_bucket_from-lt n last (suc i) fees v)

bump_at-total :
    (cs : List ℕ) (i : ℕ)
    → i < length cs
    → (r : List ℕ) × (bump_at cs i ≡ some r) × (length r ≡ length cs)
unfolding bump_at
bump_at-total [] i a = absurd (omega arith)
bump_at-total (c ∷ cs) zero a = (_, refl, refl)
bump_at-total (c ∷ cs) (suc i) a =
    let ih = bump_at-total cs i (omega arith) in (c ∷ ih.0, rw (ih.1, bump_at) refl, ap suc ih.2)

bump_cell-total :
    (w : ℕ) (rs : List (List ℕ)) (row col : ℕ)
    → All (λ r. length r ≡ w) rs
    → row < length rs
    → col < w
    → (t : List (List ℕ)) × (bump_cell rs row col ≡ some t)
      × (length t ≡ length rs)
      × All (λ r. length r ≡ w) t
unfolding bump_cell
bump_cell-total w [] row col v a b = absurd (omega arith)
bump_cell-total w (r ∷ rs) zero col v a b =
    let h = bump_at-total r col (omega (arith, v.0)) in
    (h.0 ∷ rs, rw (h.1, bump_cell) refl, refl, (h.2 ∙ v.0, v.1))
bump_cell-total w (r ∷ rs) (suc row) col v a b =
    let ih = bump_cell-total w rs row col v.1 (omega arith) b in
    (r ∷ ih.0, rw (ih.1, bump_cell) refl, ap suc ih.2, (v.0, ih.3))

pub length-reverse_aux :
    {A : Type 0} (xs ys : List A) → length (reverse_aux xs ys) ≡ length xs + length ys
length-reverse_aux [] ys = omega arith
length-reverse_aux (x ∷ xs) ys = omega (arith, length-reverse_aux xs (x ∷ ys))

All-reverse_aux :
    {A : Type 0} (P : A → Type 0) (xs ys : List A) → All P xs → All P ys → All P (reverse_aux xs ys)
All-reverse_aux P [] ys p q = q
All-reverse_aux P (x ∷ xs) ys p q = All-reverse_aux P xs (x ∷ ys) p.1 (p.0, q)

get_elem?_in : (xs : List ℕ) (i : ℕ) → i < length xs → (c : ℕ) × (get_elem? xs i ≡ some c)
get_elem?_in [] i b = absurd (omega arith)
get_elem?_in (x ∷ xs) zero b = (x, refl)
get_elem?_in (x ∷ xs) (suc i) b = get_elem?_in xs i (omega arith)

-- A bucket's row is of the width, and its fee is one of the buckets.
abbrev IsRow : ℕ → List ℕ → ℕ × List ℕ → Type 0
IsRow w fees p = (length p.1 ≡ w) × Has p.0 fees

IsRow-more :
    (w fee : ℕ) (fees : List ℕ) (rows : List (ℕ × List ℕ))
    → All (IsRow w fees) rows
    → All (IsRow w (fee ∷ fees)) rows
IsRow-more w fee fees [] h = tt
IsRow-more w fee fees (p ∷ rows) h = ((h.0.0, inr h.0.1), IsRow-more w fee fees rows h.1)

bucket_rows-IsRow :
    (w : ℕ) (fees : List ℕ) (rows : List (List ℕ))
    → length rows ≡ length fees
    → All (λ r. length r ≡ w) rows
    → All (IsRow w fees) (bucket_rows fees rows)
unfolding bucket_rows
bucket_rows-IsRow w [] rows e h = tt
bucket_rows-IsRow w (fee ∷ fees) [] e h = absurd (omega (arith, e))
bucket_rows-IsRow w (fee ∷ fees) (row ∷ rows) e h = (
  (h.0, inl refl),
  IsRow-more w fee fees _ (bucket_rows-IsRow w fees rows (omega (arith, e)) h.1),
)

scan_buckets-total :
    (w target fallback : ℕ) (fees : List ℕ) (rows : List (ℕ × List ℕ))
    → target < w
    → All (IsRow w fees) rows
    → (r : FeeRate) × (scan_buckets target fallback rows ≡ some r) × ((r ≡ fallback) ⊎ Has r fees)
unfolding scan_buckets
scan_buckets-total w target fallback fees [] b h = (fallback, refl, inl refl)
scan_buckets-total w target fallback fees ((fee, row) ∷ rows) b h =
    let at = get_elem?_in row target (omega (arith, h.0.0)) in
    let ih = scan_buckets-total w target fallback fees rows b h.1 in
    elim (Bool-cases (leb 5 at.0)) [
      | inl c ↦ (fee, rw (at.1, c, scan_buckets) refl, inr h.0.1)
      | inr c ↦ (ih.0, rw (at.1, c, scan_buckets) ih.1, ih.2)
    ]

targets-eq : (w : ℕ) (s : FeeEstimator) → IsShaped w s → targets s ≡ some w
unfolding targets
targets-eq w s v = go s.confirmations v.width (omega (arith, v.rows, v.some_bucket))
  where
    go :
        (t : List (List ℕ))
        → All (λ r. length r ≡ w) t
        → 0 < length t
        → elim t [ [] ↦ none | row ∷ _ ↦ some (length row) ] ≡ some w
    go [] h b = absurd (omega arith)
    go (row ∷ t) h b = ap some h.0

-- An estimate never panics; it is the fallback or one of the buckets.
pub estimate_fee_for_target-total :
    (w : ℕ) (s : FeeEstimator) (target : ℕ)
    → IsShaped w s
    → (r : FeeRate) × (estimate_fee_for_target s target ≡ some r)
      × ((r ≡ s.fallback_fee) ⊎ Has r s.buckets)
unfolding estimate_fee_for_target
estimate_fee_for_target-total w s target v = elim (Bool-cases (target == 0)) [
  | inl a ↦ (s.fallback_fee, rw (a, estimate_fee_for_target) refl, inl refl)
  | inr a ↦ elim (Bool-cases (leb w target)) [
    | inl b ↦ (s.fallback_fee, rw (a, targets-eq w s v, b, estimate_fee_for_target) refl, inl refl)
    | inr b ↦
        let rows = bucket_rows-IsRow w s.buckets s.confirmations v.rows v.width in
        let r =
          scan_buckets-total w target s.fallback_fee s.buckets
            (reverse (bucket_rows s.buckets s.confirmations)) (ground arith)
            (All-reverse_aux _ (bucket_rows s.buckets s.confirmations) [] rows tt) in
        (r.0, rw (a, targets-eq w s v, b, estimate_fee_for_target) r.1, r.2)
  ]
]

pub count_confirmation-total :
    (w : ℕ) (s : FeeEstimator) (rate height : ℕ)
    → IsShaped w s
    → (t : List (List ℕ)) × (count_confirmation s rate height ≡ some t)
      × (length t ≡ length s.confirmations)
      × All (λ r. length r ≡ w) t
unfolding count_confirmation find_bucket
count_confirmation-total w s rate height v =
    let blocks = height - s.current_height in
    elim (Bool-cases (ltb 0 blocks)) [
      | inr a ↦ (s.confirmations, rw (a, count_confirmation) refl, refl, v.width)
      | inl a ↦ elim (Bool-cases (ltb blocks w)) [
        | inr b ↦
            (s.confirmations, rw (a, targets-eq w s v, b, count_confirmation) refl, refl, v.width)
        | inl b ↦
            let r =
              bump_cell-total w s.confirmations
                (find_bucket_from (sub64 (length s.buckets) 1) 0 s.buckets rate) blocks v.width
                (omega (
                  arith,
                  v.rows,
                  v.some_bucket,
                  v.small,
                  find_bucket_from-lt (length s.buckets) (sub64 (length s.buckets) 1) 0 s.buckets
                      rate (omega (arith, v.some_bucket, v.small)) (omega arith),
                ))
                (ground arith) in
            (r.0, rw (a, targets-eq w s v, b, count_confirmation) r.1, r.2, r.3)
      ]
    ]
