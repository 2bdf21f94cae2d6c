-- ===== src/Store/Memory.antt =====
-- src/queuefy/store/memory.py: the store that keeps its runs in the process.
pub mod Rows
pub mod Claiming
pub mod Holding
pub mod Sweeping
pub mod Life
pub mod Invariant
pub mod History
mod Tests
