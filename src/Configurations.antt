-- ===== src/Configurations.antt =====
-- The operational mappings of app/dal/db/store.py: device lookup, client classes and proxies.
pub mod Check
pub mod Operations
pub mod Tests
