-- ===== src/Challenges.antt =====
-- Storage challenges: internal/healthmon/challenge.go and the answer of internal/agent/fragments.go.
pub mod Sets
pub mod Rows
pub mod Honest
pub mod Once
pub mod Examples
