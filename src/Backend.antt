-- ===== src/Backend.antt =====
-- src/backend_*.c: where the values of a poll go.
pub mod Carbon
pub mod Rest
mod Tests
