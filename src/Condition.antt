-- ===== src/Condition.antt =====
-- src/condition.rs: conditions as complemented edges into shared decision diagrams.
pub mod Handle
pub mod Key
pub mod Arena
pub mod Slab
mod Blocks
pub mod Meaning
pub mod Cache
pub mod Valid
pub mod Make
pub mod Canonical
pub mod Evaluate
pub mod Birth
pub mod Job
mod Tests
