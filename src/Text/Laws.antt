-- ===== src/Text/Laws.antt =====
-- Laws of the string functions, by subject.
pub mod Equality
pub mod Prefix
pub mod Split
pub mod Clean
pub mod Decide
