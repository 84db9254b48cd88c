-- ===== src/Management.antt =====
-- app/bl/services/management.py: calls of the store, and connection tests.
pub mod Calls
pub mod SafeTest
pub mod Testing
pub mod Tests
