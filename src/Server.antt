-- ===== src/Server.antt =====
-- crates/ssh3-server/src/lib.rs: who may connect, as whom, and what a session channel does.
pub mod Config
pub mod Request
pub mod Authorize
pub mod Session
pub mod Handler
pub mod Output
