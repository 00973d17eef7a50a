-- ===== src/Topology.antt =====
-- `topology_core.py`: endpoint candidates, routing decisions and batches split over targets.
pub mod Batch
pub mod Endpoints
pub mod Route
pub mod Wake
pub mod Command
mod Tests
