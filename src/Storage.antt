-- ===== src/Storage.antt =====
-- app/dal/db/storage.py, and `_transaction` of app/dal/db/store.py: errors, tables, transactions.
pub mod Errors
pub mod Post
pub mod Rows
pub mod Tables
pub mod Transaction
