-- ===== src/Tasks/Exclusion.antt =====
-- Running runs of one task, under the steps of the whole panel (internal/scheduledtask/repo.go).
mod Recovery
mod Claiming
mod Edits
mod Systems
mod Steps
pub use Recovery.{recover_expired_locks-IsConsistent}
pub use Claiming.{begin_run_version-IsConsistent}
pub use Edits.{finish_run-IsConsistent}
pub use Steps.*
pub use Systems.*
