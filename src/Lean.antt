-- ===== src/Lean.antt =====
-- The lean engine (src/core/engine/LeanEngine.ts): one loop of model calls and tool calls.
pub mod Engine
pub mod Report
pub mod Calls
pub mod Run
mod Tests
