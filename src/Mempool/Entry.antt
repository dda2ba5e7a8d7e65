-- ===== src/Mempool/Entry.antt =====
-- src/mempool/entry.rs: fee rates and the entries of the pool.
use btck_rust_node.Common.{ℕ, ◌-◌, ◌/◌, max, Bool, [], HashSet, any, ltb}
use btck_rust_node.Common.Int.{ℤ}
use btck_rust_node.Common.Words.{mul64, saturating_mul, as_i64, add_i64, max_zero}
use btck_rust_node.Chain.{Txid, Transaction}

-- Satoshis per virtual byte.
abbrev pub FeeRate : Type 0
FeeRate = ℕ

unfoldable pub from_sat_per_kvb : ℕ → FeeRate
from_sat_per_kvb sat_per_kvb = sat_per_kvb / 1000

unfoldable pub as_sat_per_kvb : FeeRate → ℕ
as_sat_per_kvb rate = mul64 rate 1000

unfoldable pub fee_for_vsize : FeeRate → ℕ → ℕ
fee_for_vsize rate vsize = saturating_mul rate vsize

pub record MempoolEntry : Type 0 where
  pub tx : Transaction
  pub txid : Txid
  pub vsize : ℕ
  pub fee : ℕ
  pub fee_rate : FeeRate
  pub time : ℕ
  pub height : ℕ
  pub parents : HashSet Txid
  pub children : HashSet Txid
  pub ancestor_size : ℕ
  pub ancestor_count : ℕ
  pub ancestor_fees : ℕ
  pub descendant_size : ℕ
  pub descendant_count : ℕ
  pub descendant_fees : ℕ
  pub signals_replacement : Bool

-- BIP 125.
unfoldable pub check_rbf_signaling : Transaction → Bool
check_rbf_signaling tx = any (λ i. ltb i.sequence 0xfffffffe) tx.input

-- `MempoolEntry::new`; `now` is the reading of the system clock.
unfoldable pub new_entry : Transaction → ℕ → ℕ → ℕ → MempoolEntry
new_entry tx fee height now = record {
  tx = tx;
  txid = tx.compute_txid;
  vsize = tx.vsize;
  fee = fee;
  fee_rate = fee / max tx.vsize 1;
  time = now;
  height = height;
  parents = [];
  children = [];
  ancestor_size = tx.vsize;
  ancestor_count = 1;
  ancestor_fees = fee;
  descendant_size = tx.vsize;
  descendant_count = 1;
  descendant_fees = fee;
  signals_replacement = check_rbf_signaling tx;
}

unfoldable pub ancestor_fee_rate : MempoolEntry → FeeRate
ancestor_fee_rate e = e.ancestor_fees / max e.ancestor_size 1

unfoldable pub descendant_fee_rate : MempoolEntry → FeeRate
descendant_fee_rate e = e.descendant_fees / max e.descendant_size 1

unfoldable pub modified_fee_rate : MempoolEntry → FeeRate
modified_fee_rate e = e.fee_rate

-- A clock that went back counts as no time passed.
unfoldable pub age : MempoolEntry → ℕ → ℕ
age e now = now - e.time

unfoldable pub is_expired : MempoolEntry → ℕ → ℕ → Bool
unfolding age
is_expired e now timeout = ltb timeout (age e now)

-- `(field as i64 + delta).max(0) as u64`
unfoldable pub shift : ℕ → ℤ → ℕ
shift field delta = max_zero (add_i64 (as_i64 field) delta)

unfoldable pub update_ancestor_state : MempoolEntry → ℤ → ℤ → ℤ → MempoolEntry
update_ancestor_state e size_delta fee_delta count_delta = record e {
  ancestor_size = shift e.ancestor_size size_delta;
  ancestor_fees = shift e.ancestor_fees fee_delta;
  ancestor_count = shift e.ancestor_count count_delta;
}

unfoldable pub update_descendant_state : MempoolEntry → ℤ → ℤ → ℤ → MempoolEntry
update_descendant_state e size_delta fee_delta count_delta = record e {
  descendant_size = shift e.descendant_size size_delta;
  descendant_fees = shift e.descendant_fees fee_delta;
  descendant_count = shift e.descendant_count count_delta;
}
