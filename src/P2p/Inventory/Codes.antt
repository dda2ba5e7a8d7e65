-- ===== src/P2p/Inventory/Codes.antt =====
-- `InvType` of src/p2p/inventory.rs, and its numbers on the wire.
use btck_rust_node.Common.{ℕ, ◌≡◌, Option, none, some, arith, ◌==◌, if◌then◌else◌, ◌↔◌}

pub data InvType : Type 0 where
  tx block filtered_block compact_block witness_tx witness_block : InvType

unfoldable pub to_u32 : InvType → ℕ
to_u32 tx = 1
to_u32 block = 2
to_u32 filtered_block = 3
to_u32 compact_block = 4
to_u32 witness_tx = 0x40000001
to_u32 witness_block = 0x40000002

unfoldable pub from_u32 : ℕ → Option InvType
from_u32 v =
    if v == 1
    then some tx
    else (if v == 2
        then some block
        else (if v == 3
            then some filtered_block
            else (if v == 4
                then some compact_block
                else (if v == 0x40000001
                    then some witness_tx
                    else (if v == 0x40000002 then some witness_block else none)))))

-- A number decodes to an inventory type exactly when the type encodes to that number.
pub from_u32-eq-some_iff : (v : ℕ) (t : InvType) → (from_u32 v ≡ some t) ↔ (to_u32 t ≡ v)
unfolding from_u32 to_u32
from_u32-eq-some_iff v tx = (λ h. ground arith, λ h. ground arith)
from_u32-eq-some_iff v block = (λ h. ground arith, λ h. ground arith)
from_u32-eq-some_iff v filtered_block = (λ h. ground arith, λ h. ground arith)
from_u32-eq-some_iff v compact_block = (λ h. ground arith, λ h. ground arith)
from_u32-eq-some_iff v witness_tx = (λ h. ground arith, λ h. ground arith)
from_u32-eq-some_iff v witness_block = (λ h. ground arith, λ h. ground arith)
