-- ===== src/Channel.antt =====
-- crates/ssh3-core/src/channel.rs: one channel of a conversation. Its state is in `State`, its
-- operations in `Receive` and `Transmit`, the parser of its messages in `Parse`.
pub mod Error
pub mod Parse
pub mod Agrees
pub mod Consumes
pub mod State
pub mod Receive
pub mod Transmit
