-- ===== src/ChainParams.antt =====
-- The parameters of the chains in src/chainparams.rs. `from_str` of the crate `bitcoin`, which reads
-- a block hash, is a parameter.
pub mod Checkpoints
mod Tests
use Prim.Native.String.{String}
use btck_rust_node.Common.{
  ℕ, Bool, true, false, Option, none, some, List, [], ◌∷◌, ◌==◌, leb, if◌then◌else◌, Result, ok,
  err,
}
use btck_rust_node.Chain.{BlockHash}

-- The networks that the code tells apart.
pub data Network : Type 0 where
  bitcoin : Network
  testnet : Network
  signet : Network
  regtest : Network
  unknown : Network

abbrev pub Checkpoint : Type 0
Checkpoint = ℕ × String

pub record ChainParams : Type 0 where
  pub checkpoints : List Checkpoint
  pub assume_valid : Option BlockHash
  pub minimum_chain_work : Option (List ℕ)

pub data InvalidHash : Type 0 where
  invalid_hash : InvalidHash

abbrev mainnet_checkpoints : List Checkpoint
mainnet_checkpoints =
    (11111, "0000000069e244f73d78e8fd29ba2fd2ed618bd6fa2ee92559f542fdb26e7c1d")
    ∷ (33333, "000000002dd5588a74784eaa7ab0507a18ad16a236e7b1ce69f00d7ddfb5d0a6")
    ∷ (74000, "0000000000573993a3c9e41ce34471c079dcf5f52a0e824a81e7f953b8661a20")
    ∷ (105000, "00000000000291ce28027faea320c8d2b054b2e0fe44a773f3eefb151d6bdc97")
    ∷ (134444, "00000000000005b12ffd4cd315cd34ffd4a594f430ac814c91184a0d42d2b0fe")
    ∷ (168000, "000000000000099e61ea72015e79632f216fe6cb33d7899acb35b75c8303b763")
    ∷ (193000, "000000000000059f452a5f7340de6682a977387c17010ff6e6c3bd83ca8b1317")
    ∷ (210000, "000000000000048b95347e83192f69cf0366076336c639f9b7228e9ba171342e")
    ∷ (216116, "00000000000001b4f4b433e81ee46494af945cf96014816a4e2370f11b23df4e")
    ∷ (225430, "00000000000001c108384350f74090433e7fcf79a606b8e797f065b130575932")
    ∷ (250000, "000000000000003887df1f29024b06fc2200b55f8af8f35453d7be294df2d214")
    ∷ (279000, "0000000000000001ae8c72a0b0c301f67e3afca10e819efa9041e458e9bd7e40")
    ∷ (295000, "00000000000000004d9b4ef50f0f9d686fd69db2e03af35a100370c64632a983")
    ∷ (478558, "0000000000000000011865af4122fe3b144e2cbeea86142e8ff2fb4107352d43")
    ∷ (504031, "0000000000000000011ebf65b60d0a3de80b8175be709d653b4c1a1beeb6ab9c")
    ∷ (550000, "000000000000000000223b7a2298fb1c6c75fb0efc28a4c56853ff4112ec6bc9")
    ∷ (600000, "000000000000000000066ef6eb0c2b4c7e4a0b1a7a8d5eb8cf1f7f52e6c7d1e7")
    ∷ (650000, "000000000000000000085e5f1b9f1a3f3b7e1a7a7a7a7a7a7a7a7a7a7a7a7a7a")
    ∷ (700000, "00000000000000000003de05b3b5b0b0b0b0b0b0b0b0b0b0b0b0b0b0b0b0b0b0")
    ∷ (750000, "00000000000000000001e1f8c2e5b2b2b2b2b2b2b2b2b2b2b2b2b2b2b2b2b2b2")
    ∷ (800000, "00000000000000000002a7a3b1c9d5d5d5d5d5d5d5d5d5d5d5d5d5d5d5d5d5d5")
    ∷ []

abbrev testnet_checkpoints : List Checkpoint
testnet_checkpoints =
    (546, "000000002a936ca763904c3c35fce2f3556c559c0214345d31b1bcebf76acb70")
    ∷ (100000, "00000000009e2958c15ff9290d571bf9459e93b19765c6801ddeccadbb160a1e")
    ∷ (200000, "0000000000287bffd321963ef05feab753ebe274e1d78b2fd4e2bfe9ad3aa6f2")
    ∷ (300000, "0000000000004829474748f3d1bc8fcf893c88be255e6d7f571c548aff57abf4")
    ∷ (400000, "00000000007f1a93e1e8a98a53d2e7a6e9bf6b7b7b7b7b7b7b7b7b7b7b7b7b7b")
    ∷ (500000, "000000000001cf8b0d4e0e0e0e0e0e0e0e0e0e0e0e0e0e0e0e0e0e0e0e0e0e")
    ∷ []

-- Of mainnet.
abbrev mainnet_work : List ℕ
mainnet_work =
    0 ∷ 0 ∷ 0 ∷ 0 ∷ 0 ∷ 0 ∷ 0 ∷ 0 ∷ 0 ∷ 0 ∷ 0 ∷ 0 ∷ 0 ∷ 0 ∷ 0 ∷ 0 ∷ 0 ∷ 0 ∷ 0 ∷ 0 ∷ 0 ∷ 154 ∷ 60
    ∷ 30 ∷ 111 ∷ 126 ∷ 26 ∷ 43 ∷ 60 ∷ 77 ∷ 94 ∷ 111 ∷ []

abbrev testnet_work : List ℕ
testnet_work =
    0 ∷ 0 ∷ 0 ∷ 0 ∷ 0 ∷ 0 ∷ 0 ∷ 0 ∷ 0 ∷ 0 ∷ 0 ∷ 0 ∷ 0 ∷ 0 ∷ 0 ∷ 0 ∷ 0 ∷ 0 ∷ 0 ∷ 0 ∷ 0 ∷ 0 ∷ 0 ∷ 0
    ∷ 0 ∷ 0 ∷ 0 ∷ 1 ∷ 116 ∷ 118 ∷ 167 ∷ 33 ∷ []

module _ (from_str : String → Option BlockHash) where
  unfoldable pub mainnet_params : ChainParams
  mainnet_params = record {
    checkpoints = mainnet_checkpoints;
    assume_valid = from_str "000000000000000000026fe88c5b1be20e8f9e17e57f0e2fa93e1a7b7d7e1e1e";
    minimum_chain_work = some mainnet_work;
  }

  unfoldable pub testnet_params : ChainParams
  testnet_params = record {
    checkpoints = testnet_checkpoints;
    assume_valid = from_str "00000000000000010ab8c2f7f7f7f7f7f7f7f7f7f7f7f7f7f7f7f7f7f7f7f7";
    minimum_chain_work = some testnet_work;
  }

  -- Of signet and of regtest.
  unfoldable pub no_params : ChainParams
  no_params = record { checkpoints = []; assume_valid = none; minimum_chain_work = none }

  unfoldable pub for_network : Network → ChainParams
  for_network bitcoin = mainnet_params
  for_network testnet = testnet_params
  for_network signet = no_params
  for_network regtest = no_params
  for_network unknown = no_params

  -- `get_checkpoint`: the first entry at the height.
  unfoldable pub get_checkpoint : List Checkpoint → ℕ → Option BlockHash
  get_checkpoint [] height = none
  get_checkpoint ((cp_height, cp_hash) ∷ cps) height =
      if cp_height == height then from_str cp_hash else get_checkpoint cps height

  unfoldable pub is_checkpoint : List Checkpoint → ℕ → BlockHash → Result InvalidHash Bool
  is_checkpoint [] height hash = ok true
  is_checkpoint ((cp_height, cp_hash) ∷ cps) height hash =
      let rest = is_checkpoint cps height hash in
      if cp_height == height
      then elim (from_str cp_hash) [ none ↦ err invalid_hash | some h ↦ ok (hash == h) ]
      else rest

  -- The loop of `get_last_checkpoint_before`, with `last_checkpoint`.
  unfoldable pub last_loop : List Checkpoint → ℕ → Option (ℕ × BlockHash) → Option (ℕ × BlockHash)
  last_loop [] height last = last
  last_loop ((cp_height, cp_hash) ∷ cps) height last =
      let later =
        last_loop cps height
          (elim (from_str cp_hash) [ none ↦ last | some h ↦ some (cp_height, h) ]) in
      if leb cp_height height then later else last

  unfoldable pub get_last_checkpoint_before : List Checkpoint → ℕ → Option (ℕ × BlockHash)
  get_last_checkpoint_before cps height = last_loop cps height none
