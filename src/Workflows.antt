-- ===== src/Workflows.antt =====
-- The procedures of src/core/workflows and src/core/engine/ProcedureEngine.ts.
pub mod Steps
pub mod Actions
pub mod Attempts
pub mod Procedures
pub mod Router
pub mod Generation
pub mod Engine
mod Tests
