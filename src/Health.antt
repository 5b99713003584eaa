-- ===== src/Health.antt =====
-- The status of nodes: internal/healthmon/state.go and the node rows of internal/store/nodes.go.
pub mod Rows
pub mod Monitor
pub mod Stale
pub mod Admission
pub mod Examples
