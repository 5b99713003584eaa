-- ===== src/Ledger.antt =====
-- The billing ledger: internal/ledger and the ledger tables of internal/store.
pub mod Types
pub mod Amounts
pub mod Post
pub mod Accrual
pub mod Charges
pub mod Posting
pub mod Balance
pub mod Walk
pub mod DoubleEntry
pub mod SumZero
pub mod Idempotence
pub mod Examples
