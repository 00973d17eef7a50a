-- ===== src/Commands.antt =====
-- What the client knows about commands: their tables, their routing keys and whether they may mutate.
pub mod Tables
pub mod Keys
pub mod Calls
pub mod Exact
pub mod Retry
pub mod ReadOnly
mod Tests
