-- ===== src/Api.antt =====
-- The door of the HTTP interface (src/api/auth.ts): tokens, passwords, rate limits, the middleware.
pub mod Limits
pub mod Tokens
pub mod Access
pub mod Passwords
mod Tests
