-- ===== src/Mempool.antt =====
-- src/mempool: the transaction pool.
pub mod Entry
pub mod Policy
pub mod Fees
pub mod Pool
pub mod Ledger
pub mod Books
pub mod Admission
pub mod Eviction
pub mod Outcome
pub mod History
pub mod Limits
pub mod Induction
pub mod Flags
pub mod Links
pub mod Order
pub mod Template
pub mod Replacement
mod Tests
