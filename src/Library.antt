-- ===== src/Library.antt =====
-- src/lib/: helpers that the components share.
mod Tests
pub mod Conversions
pub mod Locks
pub mod Validation
