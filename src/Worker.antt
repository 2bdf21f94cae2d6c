-- ===== src/Worker.antt =====
-- src/queuefy/worker.py: what a worker writes about an attempt.
pub mod Messages
pub mod Endings
pub mod Attempt
pub mod Passes
pub mod Start
pub mod Listeners
pub mod Waits
pub mod Beats
mod Tests
