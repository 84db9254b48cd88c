-- ===== src/Jobs.antt =====
-- The connection-test jobs of app/dal/db/store.py.
pub mod Rows
pub mod Payload
pub mod Operations
pub mod Invariant
pub mod Keeps
pub mod Lifecycle
pub mod Recovery
pub mod Settled
pub mod Creation
pub mod History
mod Tests
