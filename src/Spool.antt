-- ===== src/Spool.antt =====
-- The offline outbox of an edge device (src/kla_sync/ingestion).
pub mod Outbox
pub mod Flush
pub mod Claim
pub mod Flushed
pub mod Steps
pub mod Ledger
pub mod Backoff
pub mod Command
mod Tests
