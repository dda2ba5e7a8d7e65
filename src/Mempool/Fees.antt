-- ===== src/Mempool/Fees.antt =====
-- src/mempool/fees.rs: the fee estimator. An index out of range panics: the result is `none`.
pub mod Shape
pub mod Runs
use btck_rust_node.Common.{
  ℕ, zero, suc, ◌-◌, ◌&&◌, not, Option, none, some, List, [], ◌∷◌, ◌++◌, map, length, get_elem?,
  ltb, leb, ◌==◌, if◌then◌else◌, is_some,
}
use btck_rust_node.Common.Words.{add64, sub64}
use btck_rust_node.Mempool.Entry.{FeeRate}
use mathlib.Core.List.{reverse}

pub data FeePriority : Type 0 where
  high medium low economy : FeePriority

abbrev pub target_blocks : FeePriority → ℕ
target_blocks high = 1
target_blocks medium = 3
target_blocks low = 6
target_blocks economy = 12

pub record HistoricalTx : Type 0 where
  pub fee_rate : FeeRate
  pub time : ℕ
  pub confirmed_block : Option ℕ

-- The head of `history` is the front of the deque.
pub record FeeEstimator : Type 0 where
  pub history : List HistoricalTx
  pub max_history : ℕ
  pub buckets : List ℕ
  pub confirmations : List (List ℕ)
  pub current_height : ℕ
  pub min_tracked_fee : FeeRate
  pub fallback_fee : FeeRate

abbrev bucket_table : List ℕ
bucket_table = 1 ∷ 2 ∷ 3 ∷ 5 ∷ 10 ∷ 20 ∷ 30 ∷ 50 ∷ 100 ∷ 200 ∷ 300 ∷ 500 ∷ 1000 ∷ []

abbrev pub replicate {ℓ} : {A : Type ℓ} → ℕ → A → List A
replicate zero a = []
replicate (suc n) a = a ∷ replicate n a

unfoldable pub new_estimator : FeeEstimator
new_estimator = record {
  history = [];
  max_history = 10000;
  buckets = bucket_table;
  confirmations = replicate 13 (replicate 25 0);
  current_height = 0;
  min_tracked_fee = 1;
  fallback_fee = 20;
}

-- `while history.len() > max_history { history.pop_front(); }`
unfoldable pub trim : ℕ → List HistoricalTx → List HistoricalTx
trim limit [] = []
trim limit (t ∷ ts) = if ltb limit (length (t ∷ ts)) then trim limit ts else t ∷ ts

unfoldable pub add_rate : FeeEstimator → FeeRate → ℕ → FeeEstimator
unfolding trim
add_rate s fee_rate now = if ltb fee_rate s.min_tracked_fee then s else record s {
  history =
      trim s.max_history
        (s.history ++ record { fee_rate = fee_rate; time = now; confirmed_block = none } ∷ []);
}

-- The loop of `find_bucket` from position `i` on; `last` is the answer when no bucket fits.
unfoldable pub find_bucket_from : ℕ → ℕ → List ℕ → ℕ → ℕ
find_bucket_from last i [] sat_vb = last
find_bucket_from last i (fee ∷ rest) sat_vb =
    if leb sat_vb fee then i else find_bucket_from last (suc i) rest sat_vb

unfoldable pub find_bucket : FeeEstimator → FeeRate → ℕ
unfolding find_bucket_from
find_bucket s fee_rate = find_bucket_from (sub64 (length s.buckets) 1) 0 s.buckets fee_rate

-- `v[i] += 1`
unfoldable pub bump_at : List ℕ → ℕ → Option (List ℕ)
bump_at [] i = none
bump_at (c ∷ cs) zero = some (add64 c 1 ∷ cs)
bump_at (c ∷ cs) (suc i) = elim (bump_at cs i) [ none ↦ none | some r ↦ some (c ∷ r) ]

-- `confirmations[row][col] += 1`
unfoldable pub bump_cell : List (List ℕ) → ℕ → ℕ → Option (List (List ℕ))
unfolding bump_at
bump_cell [] row col = none
bump_cell (r ∷ rs) zero col = elim (bump_at r col) [ none ↦ none | some r' ↦ some (r' ∷ rs) ]
bump_cell (r ∷ rs) (suc row) col = elim (bump_cell rs row col) [
  | none ↦ none
  | some rs' ↦ some (r ∷ rs')
]

-- The loop over the history from the back, over the reversed list.
unfoldable pub confirm_first : FeeRate → ℕ → List HistoricalTx → List HistoricalTx
confirm_first rate height [] = []
confirm_first rate height (t ∷ ts) =
    if t.fee_rate == rate && not (is_some t.confirmed_block)
    then record t { confirmed_block = some height } ∷ ts
    else t ∷ confirm_first rate height ts

-- `confirmations[0].len()`
unfoldable pub targets : FeeEstimator → Option ℕ
targets s = elim s.confirmations [ [] ↦ none | row ∷ _ ↦ some (length row) ]

-- The first part of `confirm_tx`: the table after the confirmation.
unfoldable pub count_confirmation : FeeEstimator → FeeRate → ℕ → Option (List (List ℕ))
unfolding find_bucket bump_cell targets
count_confirmation s fee_rate block_height =
    let blocks = block_height - s.current_height in
    if ltb 0 blocks
    then elim (targets s) [
      | none ↦ none
      | some n ↦
          if ltb blocks n
          then bump_cell s.confirmations (find_bucket s fee_rate) blocks
          else some s.confirmations
    ]
    else some s.confirmations

unfoldable pub confirm_tx : FeeEstimator → FeeRate → ℕ → Option FeeEstimator
unfolding count_confirmation confirm_first
confirm_tx s fee_rate block_height = elim (count_confirmation s fee_rate block_height) [
  | none ↦ none
  | some table ↦ some (record s {
    confirmations = table;
    history = reverse (confirm_first fee_rate block_height (reverse s.history));
  })
]

-- `while front.time < cutoff { pop_front }`
unfoldable pub drop_before : ℕ → List HistoricalTx → List HistoricalTx
drop_before cutoff [] = []
drop_before cutoff (t ∷ ts) = if ltb t.time cutoff then drop_before cutoff ts else t ∷ ts

-- One day is 86400 seconds; the clock is past its first day.
unfoldable pub update_height : FeeEstimator → ℕ → ℕ → FeeEstimator
unfolding drop_before
update_height s height now = record s {
  current_height = height;
  history = drop_before (now - 86400) s.history;
}

-- The loop of `estimate_fee_for_target` over the buckets from the last one, each with its row.
unfoldable pub scan_buckets : ℕ → FeeRate → List (ℕ × List ℕ) → Option FeeRate
scan_buckets target fallback [] = some fallback
scan_buckets target fallback ((fee, row) ∷ rest) =
    let next = scan_buckets target fallback rest in
    elim (get_elem? row target) [
      | none ↦ none
      | some confirmations ↦ if leb 5 confirmations then some fee else next
    ]

-- `buckets` with the row of each index; a missing row is out of range.
unfoldable pub bucket_rows : List ℕ → List (List ℕ) → List (ℕ × List ℕ)
bucket_rows [] rows = []
bucket_rows (fee ∷ fees) [] = (fee, []) ∷ bucket_rows fees []
bucket_rows (fee ∷ fees) (row ∷ rows) = (fee, row) ∷ bucket_rows fees rows

unfoldable pub estimate_fee_for_target : FeeEstimator → ℕ → Option FeeRate
unfolding scan_buckets bucket_rows targets
estimate_fee_for_target s target = if target == 0 then some s.fallback_fee else elim (targets s) [
  | none ↦ none
  | some n ↦
      if leb n target
      then some s.fallback_fee
      else scan_buckets target s.fallback_fee (reverse (bucket_rows s.buckets s.confirmations))
]

unfoldable pub estimate_fee : FeeEstimator → FeePriority → Option FeeRate
unfolding estimate_fee_for_target
estimate_fee s priority = estimate_fee_for_target s (target_blocks priority)

unfoldable pub set_fallback_fee : FeeEstimator → FeeRate → FeeEstimator
set_fallback_fee s fee_rate = record s { fallback_fee = fee_rate }

unfoldable pub clear_estimator : FeeEstimator → FeeEstimator
clear_estimator s = record s {
  history = [];
  confirmations = map (map (λ (count : ℕ). zero)) s.confirmations;
}
