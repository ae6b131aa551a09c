-- ===== src/Agi.antt =====
-- The autonomous agent's allowance and scheduler (integrations/agi/src) and its supervisor
-- (integrations/agi/kernel).
pub mod Kernel
pub mod Ledger
pub mod Schedule
pub mod Scheduler
mod Tests
