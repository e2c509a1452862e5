-- ===== src/Sql.antt =====
-- sql: the parts of the language that this repository parses itself.
pub mod Duration
mod Tests
