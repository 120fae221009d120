-- ===== src/Review.antt =====
-- The reviewer and dispute portal (src/kla_sync/review).
pub mod Models
pub mod Store
pub mod Writes
pub mod Guards
pub mod Service
pub mod Outcomes
pub mod Consistent
pub mod Requests
pub mod Atomic
pub mod Run
pub mod Reachable
pub mod Lifecycle
pub mod Audit
pub mod Disputes
pub mod Accounts
mod Tests
