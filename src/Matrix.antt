-- ===== src/Matrix.antt =====
-- The expansion of build matrices: internal/executionsemantics/matrix.go.
pub mod Coordinates
pub mod Cartesian
pub mod Expand
pub mod CartesianLaws
pub mod ExpandLaws
mod Samples
