-- ===== src/Metadata.antt =====
-- internal/metadata: the service between the clients and the store.
pub mod Receive
pub mod Received
pub mod Download
pub mod Plan
pub mod Repair
pub mod Report
pub mod Consumed
pub mod Metered
pub mod Planned
pub mod Compensated
pub mod Downloads
mod Examples
pub mod Reported
