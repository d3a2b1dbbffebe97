-- ===== src/Jobs.antt =====
-- packages/jobs: the durability spine.
pub mod Store
pub mod Attempts
pub mod DeadLetter
pub mod AttemptResult
pub mod Stage
pub mod StageRun
pub mod Branch
pub mod BranchRun
pub mod Outbox
pub mod OutboxRelay
pub mod Reconciler
pub mod ReconcilePass
pub mod Checks
pub mod Retention
pub mod Contract
pub mod Pool
