-- ===== src/Command.antt =====
-- The workflow commands that a step writes to its log: internal/execution/workflow_command.go.
pub mod State
pub mod Masks
pub mod MaskLaws
pub mod Decode
pub mod Encode
pub mod FormatText
pub mod RoundTrip
pub mod Marker
pub mod Process
pub mod Run
pub mod Effect
pub mod Bounds
pub mod Tally
pub mod Trace
pub mod Privacy
mod Samples
