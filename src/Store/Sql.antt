-- ===== src/Store/Sql.antt =====
-- src/queuefy/store/sqlalchemy.py: the store that keeps its runs in a database.
pub mod Columns
pub mod Instants
pub mod Engine
pub mod Contention
pub mod Writing
pub mod Claiming
pub mod Sweeping
pub mod Effects
pub mod Underway
pub mod Calls
mod Tests
