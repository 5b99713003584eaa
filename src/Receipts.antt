-- ===== src/Receipts.antt =====
-- Acknowledgements that nodes sign: internal/receipts.
pub mod Receipt
pub mod Matching
pub mod Examples
