-- ===== src/Store.antt =====
-- src/store.rs: persistent indexes, tries over keys of four words.
pub mod Word
pub mod Key
pub mod Bits
pub mod Order
pub mod BoundBits
pub mod Interval
pub mod Trie
pub mod Shape
pub mod Pages
pub mod Entries
pub mod Reads
pub mod Differences
pub mod Insert
pub mod InsertLaws
pub mod Writes
pub mod InsertReads
pub mod Remove
pub mod Listing
pub mod Places
pub mod Count
pub mod Cursor
pub mod Turns
pub mod Range
pub mod Drain
pub mod Sorted
pub mod Found
pub mod Prefix
pub mod Coalesce
pub mod Scan
pub mod PageArray
pub mod Shifts
pub mod Queue
pub mod Release
pub mod Pops
mod Tests
