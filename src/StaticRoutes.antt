-- ===== src/StaticRoutes.antt =====
-- The simulated static routes of app/dal/db/store.py.
pub mod Check
pub mod Operations
pub mod Audited
pub mod Logged
pub mod Rows
pub mod Recorded
pub mod Tests
