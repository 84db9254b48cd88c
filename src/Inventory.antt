-- ===== src/Inventory.antt =====
-- The saved connections, proxies and role accounts of app/dal/db/store.py.
pub mod Rows
pub mod Credentials
pub mod Profiles
pub mod Operations
pub mod Listing
pub mod References
pub mod Tests
