-- ===== src/Files.antt =====
-- The files by which a step hands values to later ones: internal/execution/output_command.go,
-- internal/execution/runtime_command_files.go and internal/execution/dotenv.go.
pub mod Lines
pub mod Commands
pub mod Environment
pub mod SafetyLaws
pub mod ListLaws
pub mod RoundTrip
mod Samples
