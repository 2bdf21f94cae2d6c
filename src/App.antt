-- ===== src/App.antt =====
-- src/queuefy/app.py
pub mod Payload
pub mod Guards
pub mod Registry
pub mod Enqueue
pub mod Recurring
pub mod Shared
pub mod Asking
mod Tests
