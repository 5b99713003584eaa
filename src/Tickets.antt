-- ===== src/Tickets.antt =====
-- Signed capabilities and acknowledgements: internal/tickets and internal/receipts.
pub mod Wire
pub mod Codec
pub mod RoundTrip
pub mod Sign
pub mod Genuine
pub mod Accepted
pub mod Examples
