-- ===== src/Audit.antt =====
-- The audit records of app/dal/db/store.py: redaction, validation and the append-only table.
pub mod Redaction
pub mod Redacted
pub mod Fields
pub mod Outcomes
pub mod Timestamps
pub mod Listing
pub mod Wanted
pub mod Pages
pub mod Tests
