-- ===== src/Auth.antt =====
-- internal/auth: accounts.
pub mod Store
pub mod Roles
pub mod Admin
pub mod Seed
pub mod Sessions
pub mod Tokens
mod Tests
