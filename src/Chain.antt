-- ===== src/Chain.antt =====
-- What the source reads of the bitcoin crate's transactions. The crate is not part of the
-- repository: a transaction is here the record of the fields that the source reads (`input`,
-- `output`) and of what the crate's methods answer for it (`compute_txid`, `vsize`, `weight`, and
-- the length of `consensus_encode`, with `none` for an encoding error). A statement about every
-- such record holds whatever the crate computes.
-- Hashes (Txid, BlockHash) are opaque and compared for equality only: they are numbers. So are the
-- socket addresses of the standard library, which the code compares and hashes.
use btck_rust_node.Common.{ℕ, Option, List, Key, ℕ_discrete}

abbrev pub Txid : Type 0
Txid = ℕ

abbrev pub BlockHash : Type 0
BlockHash = ℕ

abbrev pub SocketAddr : Type 0
SocketAddr = ℕ

pub record OutPoint : Type 0 where
  pub txid : Txid
  pub vout : ℕ

unfoldable pub OutPoint-discrete : Discrete OutPoint
OutPoint-discrete = hlevel ℕ_discrete

instance abbrev pub outpoint_key : Key OutPoint
outpoint_key = record { dec = OutPoint-discrete }

pub record TxIn : Type 0 where
  pub previous_output : OutPoint
  pub sequence : ℕ

pub record Transaction : Type 0 where
  pub input : List TxIn
  -- the values of the outputs, in satoshis
  pub output : List ℕ
  pub compute_txid : Txid
  pub vsize : ℕ
  pub weight : ℕ
  pub encoded_len : Option ℕ
