-- ===== src/Runner.antt =====
-- internal/runner: running package scripts, and passing on what they write.
pub mod Aggregate
pub mod Utf8
pub mod Prefix
pub mod Schedule
pub mod Scheduler
pub mod Scripts
pub mod Members
