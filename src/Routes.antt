-- ===== src/Routes.antt =====
-- The management routes of app/api/routes/management.py: the guard of browser requests, and the
-- endpoints over the services.
pub mod Guard
pub mod Endpoints
pub mod Guarded
pub mod Tests
