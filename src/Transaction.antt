-- ===== src/Transaction.antt =====
-- internal/transaction: the journaled install transaction, its commit and its recovery.
pub mod Journal
pub mod Disk
pub mod Session
pub mod Publish
pub mod Finish
pub mod Rollback
pub mod Touch
pub mod Preflight
pub mod Record
