-- ===== src/Flow.antt =====
-- Flow commands: their options, their arguments and the keys that route them.
pub mod Tables
pub mod Commands
pub mod Options
pub mod Grammar
pub mod Recognition
pub mod Widths
pub mod Arguments
pub mod Segments
pub mod Hashing
pub mod Pieces
pub mod Routing
pub mod Physical
pub mod Routes
pub mod Buckets
pub mod Streams
mod Tests
