-- ===== src/Store/Redis.antt =====
-- src/queuefy/store/redis.py: the store that keeps its runs in redis.
pub mod Opening
pub mod Places
pub mod Hashes
pub mod Commands
pub mod Writing
pub mod Reads
pub mod Claiming
pub mod Sweeping
pub mod Kept
pub mod Calls
mod Tests
