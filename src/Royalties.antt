-- ===== src/Royalties.antt =====
-- The royalty calculator (src/kla_sync/royalties).
pub mod Outcome
pub mod Split
pub mod Decimal
pub mod Digits
pub mod Rounding
pub mod Sums
pub mod Total
pub mod Exact
pub mod Quota
pub mod Fair
pub mod Calculate
pub mod Settled
pub mod Coarse
mod Tests
