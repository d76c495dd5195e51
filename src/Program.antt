-- ===== src/Program.antt =====
-- src/program.rs: prepared programs.
mod Variables
mod Builder
mod Sizes
mod Tests
