-- ===== src/Cache.antt =====
-- The response cache (src/cache).
pub mod Backend
pub mod Client
pub mod Memory
pub mod Redis
mod Tests
