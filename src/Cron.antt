-- ===== src/Cron.antt =====
-- src/queuefy/cron.py: posix expressions, and the instants that they name.
pub mod Text
pub mod Values
pub mod Parse
pub mod Next
pub mod Times
pub mod Walk
pub mod First
pub mod Bounds
pub mod Parsed
pub mod Answer
pub mod Tests
