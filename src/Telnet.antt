-- ===== src/Telnet.antt =====
-- app/dal/device/telnet_client.py: the Telnet option negotiator and the bounded reads.
pub mod Negotiator
pub mod Chunks
pub mod Grammar
pub mod Reads
pub mod Client
mod Tests
