-- ===== src/Worker.antt =====
-- Main/TaskForgeWorker.cpp: one message from its receipt to its end.
pub mod Backoff
pub mod Status
pub mod Transfer
pub mod Failure
pub mod Process
pub mod Effects
pub mod Lifecycle
pub mod Delivery
pub mod Entries
pub mod Scope
pub mod Tests
