-- ===== src/Rowstore.antt =====
-- row_store.go: the rows of a table, in a file and in memory.
pub mod Header
pub mod Rows
pub mod Fields
pub mod Iterate
pub mod Store
pub mod Flush
pub mod Process
pub mod Open
mod Tests
