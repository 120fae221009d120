-- ===== src/Migrations.antt =====
-- The migration runner (src/kla_sync/db/migrations.py).
pub mod Plan
pub mod Run
pub mod Applied
pub mod Drift
pub mod Todo
pub mod Complete
pub mod Settled
pub mod Finished
mod Tests
