-- ===== src/Kernel/Tests.antt =====
-- Runs of src/kernel/mod.rs on small inputs.
use btck_rust_node.Common.{
  ℕ, zero, suc, Option, List, refl, ltb, lookup, ◌≡◌, ◌↔◌, true, none, some, [], ◌∷◌, ok,
}
use btck_rust_node.Common.Int.{pos}
use btck_rust_node.ChainParams.{Network}
use btck_rust_node.Chain.{Transaction}
use btck_rust_node.Kernel.{validate_transaction}
use btck_rust_node.Kernel.Foreign.{Library, Process}
use btck_rust_node.Kernel.Startup.{
  Request, heights, best_hash, hash_at, processes_block, new_kernel, session,
}
use btck_rust_node.Kernel.Lifetime.{After, IsSound}
use btck_rust_node.Kernel.Session.{New}
use btck_rust_node.Kernel.Release.{Released, new_kernel-New, session-Released}
use btck_rust_node.Kernel.Validity.{IsValid, validate_transaction_iff}

abbrev payment : Transaction
payment = record {
  input =
      record { previous_output = record { txid = 7; vout = 0 }; sequence = 4294967293 }
      ∷ record { previous_output = record { txid = 7; vout = 1 }; sequence = 4294967293 }
      ∷ [];
  output = 900 ∷ 50 ∷ [];
  compute_txid = 11;
  vsize = 100;
  weight = 400;
  encoded_len = some 100;
}

validate_transaction_iff_example :
    (validate_transaction payment ≡ ok (true, none)) ↔ IsValid payment
validate_transaction_iff_example = validate_transaction_iff payment

-- A library that makes every object and adds every block; its state is the number of blocks.
abbrev steady : Library ℕ
steady = record {
  create = λ m w. (true, w);
  destroys = λ k h w. w;
  sets = λ x w. w;
  active_chain_height = λ w. elim w [ zero ↦ none | suc n ↦ some (pos n) ];
  has_genesis = λ w. ltb 0 w;
  tip_hash = λ w. some (some w);
  hash_by_height = λ h w. none;
  processes = λ h w. ((pos 0, pos 1), suc w);
  imports = λ paths w. (pos 0, w);
}

abbrev encoded_genesis : Network → Option (List ℕ)
encoded_genesis net = some (1 ∷ 0 ∷ [])

abbrev started : Process ℕ
started = record { world = 0; live = []; next = 1; session_blocks = pos 0; log = [] }

started-IsSound : IsSound started
unfolding lookup
started-IsSound = (tt, λ h le. refl)

abbrev calls : List Request
calls = heights ∷ processes_block (5 ∷ 6 ∷ []) ∷ hash_at (pos 1) ∷ best_hash ∷ []

session-Released_example :
    After
      (session steady encoded_genesis "regtest" (47 ∷ []) (47 ∷ 98 ∷ []) calls started)
      (Released steady [])
session-Released_example =
    session-Released steady encoded_genesis "regtest" (47 ∷ []) (47 ∷ 98 ∷ []) calls started
      started-IsSound

new_kernel-New_example :
    After
      (new_kernel steady encoded_genesis "signet" (47 ∷ []) (47 ∷ 0 ∷ []) started)
      (New steady [])
new_kernel-New_example =
    new_kernel-New steady encoded_genesis "signet" (47 ∷ []) (47 ∷ 0 ∷ []) started started-IsSound
