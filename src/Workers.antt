-- ===== src/Workers.antt =====
-- iib/workers: the tasks that Celery runs for a request.
pub mod Exec
pub mod Values
pub mod Docker
pub mod Retry
pub mod Command
pub mod Api
pub mod Cache
pub mod Images
pub mod Prepare
pub mod Gating
pub mod Legacy
pub mod Build
pub mod Merge
pub mod Regenerate
pub mod Frames
pub mod Tasks
pub mod Settings
