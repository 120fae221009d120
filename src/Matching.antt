-- ===== src/Matching.antt =====
-- The landmark index and the voting of candidates (src/kla_sync/matching, audio/fingerprint.py).
pub mod Index
pub mod Exact
pub mod Table
pub mod Hits
pub mod Vote
pub mod Service
pub mod Same
pub mod Bounds
mod Tests
