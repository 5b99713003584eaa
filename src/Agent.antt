-- ===== src/Agent.antt =====
-- The fragment store of a node: internal/agent/store.go.
pub mod ChunkStore
pub mod Stored
pub mod Nonces
pub mod Ranges
pub mod Examples
