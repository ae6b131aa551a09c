-- ===== src/Health.antt =====
-- The heuristics that watch over a task (src/core).
pub mod Similarity
pub mod Reasons
pub mod Json
pub mod Actions
pub mod Messages
pub mod Steps
pub mod Totals
pub mod Compaction
mod Tests
