-- ===== src/Sdlc.antt =====
-- The SDLC orchestration engine (src/core/engine/SdlcEngine.ts).
pub mod Stage
pub mod Dag
pub mod World
pub mod Gate
pub mod Healing
pub mod Run
pub mod Entry
mod Tests
