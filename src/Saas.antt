-- ===== src/Saas.antt =====
-- Tenants, roles and feature switches (src/saas).
pub mod Roles
pub mod Features
pub mod Plans
pub mod Ids
pub mod Tenants
pub mod Usage
pub mod Gate
mod Tests
