-- ===== src/Encoding.antt =====
-- encoding: numbers, times and sequences of accumulators as bytes.
pub mod Binary
pub mod Time
pub mod Duration
pub mod Until
mod Tests
