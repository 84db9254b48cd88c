-- ===== src/Connectors.antt =====
-- app/dal/proxy/connectors.py: the checks of a connection profile, and the handshakes with
-- proxies over a stream.
pub mod Checks
pub mod Profile
pub mod Accepted
pub mod Valid
pub mod Stream
pub mod Socks
pub mod Deadline
pub mod Prompts
pub mod HttpConnect
pub mod Tests
