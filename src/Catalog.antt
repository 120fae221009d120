-- ===== src/Catalog.antt =====
-- Catalog onboarding and the life of split sheets (src/kla_sync/catalog).
pub mod Documents
pub mod Checks
pub mod Entries
pub mod Parse
pub mod References
pub mod Store
pub mod Writes
pub mod Sheets
pub mod Persist
pub mod Service
pub mod Invariant
pub mod Whole
pub mod Kept
pub mod Stable
pub mod Onboarded
pub mod Framed
pub mod Run
pub mod Once
pub mod Clean
pub mod Resolved
pub mod Linked
pub mod Conflicts
pub mod Accepted
pub mod Named
pub mod Referred
pub mod Valid
mod Tests
mod Payloads
pub mod Activation
