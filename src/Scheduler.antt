-- ===== src/Scheduler.antt =====
-- Placement of fragments on nodes: internal/scheduler.
pub mod Nodes
pub mod Score
pub mod Pick
pub mod Place
pub mod Caps
pub mod Spread
pub mod Examples
