-- ===== src/Client.antt =====
-- crates/ssh3-client/src/lib.rs: how the client presents itself and opens a session.
pub mod Credentials
pub mod Agent
pub mod Capture
pub mod Race
pub mod Requests
