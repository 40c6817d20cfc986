-- ===== src/Store.antt =====
-- The database layer of internal/store: the lifecycle of runs, jobs and steps, and the leases.
pub mod Status
pub mod Row
pub mod WaitRow
pub mod History
pub mod RowLaws
pub mod HistoryLaws
pub mod Stuck
pub mod Lease
pub mod LeaseTable
pub mod LeaseLaws
pub mod LeaseExclusion
pub mod Queue
pub mod QueueLaws
mod Samples
