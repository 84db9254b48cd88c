-- ===== src/Auth.antt =====
-- app/bl/services/auth.py and config/settings.py: settings, signed values, tokens and sessions.
pub mod Settings
pub mod Numbers
pub mod Signed
pub mod Keys
pub mod Claims
pub mod Completed
pub mod Token
pub mod Accepted
pub mod Verified
pub mod Request
pub mod Session
pub mod Login
pub mod Tests
