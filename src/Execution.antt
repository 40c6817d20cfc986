-- ===== src/Execution.antt =====
-- The execution of jobs by internal/execution: the retries of a job, and whether a job runs.
pub mod Retry
pub mod RetryLaws
pub mod Dependency
pub mod JobRow
pub mod Decision
pub mod DependencyLaws
pub mod DecisionLaws
pub mod DecisionJustified
mod Samples
