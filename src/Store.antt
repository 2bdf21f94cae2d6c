-- ===== src/Store.antt =====
-- src/queuefy/store: where runs live.
pub mod Base
pub mod Memory
pub mod Contract
pub mod Sql
pub mod Redis
