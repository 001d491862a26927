-- ===== src/Access.antt =====
-- internal/access: who may touch which media path.
pub mod Types
pub mod Path
pub mod Store
pub mod Service
mod Tests
