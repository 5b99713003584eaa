-- ===== src/Pipeline.antt =====
-- Client-side encryption: internal/pipeline.
pub mod Segments
pub mod Decrypted
pub mod Examples
