-- ===== src/Ingest.antt =====
-- What the server takes in from edge devices (src/kla_sync/ingestion_api).
pub mod Device
pub mod Store
pub mod Fields
pub mod Manifest
pub mod Service
pub mod Outcomes
pub mod Receipts
pub mod Jobs
mod Tests
