-- ===== src/Uploads.antt =====
-- internal/store/uploads.go, repair.go, lifecycle.go and files.go: uploads and placements.
pub mod Rows
pub mod Placements
pub mod Lifecycle
pub mod Planned
pub mod Begin
pub mod Commit
pub mod Repair
pub mod Download
pub mod Delete
pub mod Reads
pub mod Committed
pub mod Covered
pub mod Aborted
pub mod Again
pub mod Deleted
pub mod Resumed
pub mod Fixtures
pub mod Examples
pub mod Moves
pub mod Keys
pub mod Final
