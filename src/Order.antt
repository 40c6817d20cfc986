-- ===== src/Order.antt =====
-- The orders in which jobs run: internal/handlers/toposort.go and the order of a definition in
-- internal/execution/discovery.go.
pub mod Count
pub mod Kahn
pub mod Settle
pub mod KahnGraph
pub mod KahnLoop
pub mod KahnLaws
pub mod Local
pub mod LocalLaws
pub mod LocalOrder
pub mod Discovered
pub mod LinkLaws
pub mod Sorting
pub mod Determined
pub mod DiscoveredLaws
pub mod Acyclic
pub mod Levels
pub mod LevelLaws
pub mod LevelOrder
mod DiscoveredSamples
mod Samples
