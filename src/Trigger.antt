-- ===== src/Trigger.antt =====
-- Which events start a workflow: internal/triggerpolicy/policy.go.
pub mod Glob
pub mod GlobLaws
pub mod Policy
pub mod PolicyLaws
pub mod Inputs
pub mod InputLaws
mod Samples
