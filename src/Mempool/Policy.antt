-- ===== src/Mempool/Policy.antt =====
-- src/mempool/policy.rs: the limits that the pool enforces.
use btck_rust_node.Common.{ℕ, ◌*◌, ◌/◌, Bool, true, false, ltb, leb, if◌then◌else◌, Result, ok, err}
use btck_rust_node.Common.Int.{ℤ}
use btck_rust_node.Common.Words.{add64, mul64, abs_u64}
use btck_rust_node.Mempool.Entry.{FeeRate, fee_for_vsize}

pub record MempoolPolicy : Type 0 where
  pub max_size : ℕ
  pub max_size_mb : ℕ
  pub expiry : ℕ
  pub min_relay_fee : FeeRate
  pub max_ancestors : ℕ
  pub max_ancestor_size_kb : ℕ
  pub max_descendants : ℕ
  pub max_descendant_size_kb : ℕ
  pub require_standard : Bool
  pub permit_bare_multisig : Bool
  pub max_tx_size : ℕ
  pub max_tx_sigops : ℕ
  pub dust_relay_fee : FeeRate
  pub incremental_relay_fee : FeeRate
  pub enable_rbf : Bool

-- `Default`; durations are in seconds.
abbrev pub default_policy : MempoolPolicy
default_policy = record {
  max_size = 300 * 1024 * 1024;
  max_size_mb = 300;
  expiry = 336 * 3600;
  min_relay_fee = 1;
  max_ancestors = 25;
  max_ancestor_size_kb = 101;
  max_descendants = 25;
  max_descendant_size_kb = 101;
  require_standard = true;
  permit_bare_multisig = true;
  max_tx_size = 100_000;
  max_tx_sigops = 4000;
  dust_relay_fee = 3;
  incremental_relay_fee = 1;
  enable_rbf = true;
}

abbrev pub mainnet : MempoolPolicy
mainnet = default_policy

abbrev pub testnet : MempoolPolicy
testnet = record default_policy { min_relay_fee = 1 }

abbrev pub regtest : MempoolPolicy
regtest = record default_policy { min_relay_fee = 0; require_standard = false }

-- The error messages, with the numbers that they print.
pub data PolicyError : Type 0 where
  too_many_ancestors : ℕ → ℕ → PolicyError
  ancestor_size_too_large : ℕ → ℕ → PolicyError
  too_many_descendants : ℕ → ℕ → PolicyError
  descendant_size_too_large : ℕ → ℕ → PolicyError
  rbf_disabled : PolicyError
  no_rbf_signal : PolicyError
  insufficient_fee_bump : ℕ → ℕ → PolicyError

unfoldable pub is_fee_acceptable : MempoolPolicy → FeeRate → Bool
is_fee_acceptable p fee_rate = leb p.min_relay_fee fee_rate

unfoldable pub is_size_acceptable : MempoolPolicy → ℕ → Bool
is_size_acceptable p size = leb size p.max_tx_size

unfoldable pub min_fee_for_size : MempoolPolicy → ℕ → ℕ
unfolding fee_for_vsize
min_fee_for_size p vsize = fee_for_vsize p.min_relay_fee vsize

unfoldable pub check_ancestor_limits : MempoolPolicy → ℕ → ℕ → Result PolicyError (Unit {0})
check_ancestor_limits p count size =
    if ltb p.max_ancestors count
    then err (too_many_ancestors count p.max_ancestors)
    else (if ltb (mul64 p.max_ancestor_size_kb 1024) size
        then err (ancestor_size_too_large (size / 1024) p.max_ancestor_size_kb)
        else ok tt)

unfoldable pub check_descendant_limits : MempoolPolicy → ℕ → ℕ → Result PolicyError (Unit {0})
check_descendant_limits p count size =
    if ltb p.max_descendants count
    then err (too_many_descendants count p.max_descendants)
    else (if ltb (mul64 p.max_descendant_size_kb 1024) size
        then err (descendant_size_too_large (size / 1024) p.max_descendant_size_kb)
        else ok tt)

-- The fee that a replacement must add for its change of size.
unfoldable pub min_bump : MempoolPolicy → ℤ → ℕ
unfolding fee_for_vsize
min_bump p size_delta = fee_for_vsize p.incremental_relay_fee (abs_u64 size_delta)

unfoldable pub check_rbf : MempoolPolicy → Bool → ℕ → ℤ → Result PolicyError (Unit {0})
unfolding min_bump
check_rbf p signals_rbf fee_delta size_delta =
    if p.enable_rbf
    then (if signals_rbf
        then (if ltb fee_delta (min_bump p size_delta)
            then err (insufficient_fee_bump fee_delta (min_bump p size_delta))
            else ok tt)
        else err no_rbf_signal)
    else err rbf_disabled

unfoldable pub dust_threshold : MempoolPolicy → ℕ → ℕ
unfolding fee_for_vsize
dust_threshold p output_size = mul64 (fee_for_vsize p.dust_relay_fee (add64 output_size 148)) 3
