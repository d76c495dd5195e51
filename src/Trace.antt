-- ===== src/Trace.antt =====
-- src/trace.rs: the cursors that list the roots of suspended work.
pub mod Cursor
mod Walk
mod Tests
