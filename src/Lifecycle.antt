-- ===== src/Lifecycle.antt =====
-- `lifecycle_core.py`: shutting down, against operations that run meanwhile and resources that fail to close.
pub mod Coordinator
pub mod Threads
pub mod Weights
pub mod Invariant
pub mod Exclusion
pub mod Progress
pub mod Cleanup
mod Tests
