-- ===== src/Repair.antt =====
-- internal/repair and internal/lifecycle: the workers that rebuild lost fragments and reap expired
-- ones.
pub mod Worker
pub mod Queued
mod Examples
